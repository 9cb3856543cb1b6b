-- ===== src/Service/Reads.antt =====
-- services/inventory/api.py: the reads. The low-stock scan joins the tables of the catalog and is left
-- out.
use tip_metro_drip_ecommerce.Base.{ℕ, ℤ, not, none, some, List, [], ◌∷◌, select, lookup, ◌==◌}
use tip_metro_drip_ecommerce.Base.Action.{gets, pure, or_raise, ◌>>=◌}
use tip_metro_drip_ecommerce.Inventory.{StockRecord, available}
use tip_metro_drip_ecommerce.Service.{unknown_variant}
use tip_metro_drip_ecommerce.Service.Reservations.{Work}

pub record StockRecordOut : Type 0 where
  pub variant_id : ℕ
  pub qty_on_hand : ℕ
  pub qty_reserved : ℕ
  pub low_stock_threshold : ℕ
  pub available : ℤ

-- `_as_out`
abbrev pub as_out : ℕ → StockRecord → StockRecordOut
as_out v r = record {
  variant_id = v;
  qty_on_hand = r.qty_on_hand;
  qty_reserved = r.qty_reserved;
  low_stock_threshold = r.low_stock_threshold;
  available = available r;
}

-- `list(dict.fromkeys(…))`: the first occurrence of each is kept.
unfoldable pub from_keys : List ℕ → List ℕ
from_keys [] = []
from_keys (v ∷ vs) = v ∷ select (λ w. not (w == v)) (from_keys vs)

-- The ids that have a row, in the order they were asked for.
unfoldable pub found : List (ℕ × StockRecord) → List ℕ → List StockRecordOut
found rows [] = []
found rows (v ∷ vs) = elim (lookup v rows) [
  | none ↦ found rows vs
  | some r ↦ as_out v r ∷ found rows vs
]

unfoldable pub get_stock_batch : List ℕ → Work (List StockRecordOut)
unfolding found from_keys
get_stock_batch vs = gets (λ s. found s.stock (from_keys vs))

unfoldable pub get_stock : ℕ → Work StockRecordOut
get_stock v =
    gets (λ s. lookup v s.stock) >>= λ o. or_raise unknown_variant o >>= λ r. pure (as_out v r)
