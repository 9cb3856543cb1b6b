-- ===== src/Checkout.antt =====
-- apps/orders/checkout.py: the cart of a checkout, `parse_items`, and the tables that `place_order`
-- writes, with `StockHold` and `OrderItem` of apps/orders/models.py.
pub mod Cart
pub mod Saga
pub mod Local
mod Tests
use tip_metro_drip_ecommerce.Base.{
  ℕ, suc, ◌+◌, ◌*◌, ℤ, pos, negsuc, String, Bool, true, false, not, ◌&&◌, Option, none, some, List,
  [], ◌∷◌, Dict, lookup, insert, leb, ltb, ◌==◌, length, if◌then◌else◌,
}
use tip_metro_drip_ecommerce.Base.Action.{Result, ok, err}
use tip_metro_drip_ecommerce.Orders.{OrderError}
use tip_metro_drip_ecommerce.Orders.Number.{NumberError}

abbrev pub max_checkout_lines : ℕ
max_checkout_lines = 20

abbrev pub max_line_qty : ℕ
max_line_qty = 99

-- What `int(line["variant_id"])` and `int(line["qty"])` give, or that they raise. A negative id is
-- no key of a table and is read as one that raises: both end in a `CheckoutError`.
pub record CartLine : Type 0 where
  pub variant_id : Option ℕ
  pub qty : Option ℤ

-- `1 <= qty <= MAX_LINE_QTY`
abbrev pub line_qty : ℤ → Option ℕ
line_qty (pos n) = if leb 1 n && leb n max_line_qty then some n else none
line_qty (negsuc n) = none

abbrev pub quantity : ℕ → Dict ℕ → ℕ
quantity v d = elim (lookup v d) [ none ↦ 0 | some n ↦ n ]

abbrev pub both : Option ℕ → Option ℤ → Option (ℕ × ℕ)
both none q = none
both (some v) none = none
both (some v) (some q) = elim (line_qty q) [ none ↦ none | some n ↦ some (v, n) ]

-- The variant and the quantity of a line that is accepted.
abbrev pub read_line : CartLine → Option (ℕ × ℕ)
read_line l = both l.variant_id l.qty

-- The loop of `parse_items`: `quantities` so far.
unfoldable pub merge_lines : List CartLine → Dict ℕ → Option (Dict ℕ)
merge_lines [] quantities = some quantities
merge_lines (l ∷ ls) quantities = elim (read_line l) [
  | none ↦ none
  | some (v, n) ↦ merge_lines ls (insert v (quantity v quantities + n) quantities)
]

-- `parse_items`: no list at all, or the lines of the cart. No result is a `CheckoutError`.
unfoldable pub parse_items : Option (List CartLine) → Option (Dict ℕ)
unfolding merge_lines
parse_items none = none
parse_items (some []) = none
parse_items (some (l ∷ ls)) =
    if ltb max_checkout_lines (suc (length ls)) then none else merge_lines (l ∷ ls) []
