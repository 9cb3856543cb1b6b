-- ===== src/Inventory/Provider.antt =====
-- apps/inventory/providers/local.py: what the operations of `LocalInventoryProvider` share. A row
-- lock lasts to the end of its transaction, so that an operation is one step.
pub mod Steps
use tip_metro_drip_ecommerce.Base.{
  ℕ, ◌+◌, ◌-◌, ℤ, pos, ltb_ℤ, String, str_append, Bool, true, false, not, Option, none, some, List,
  [], ◌∷◌, lookup, ltb, leb, ◌==◌, str_eq, if◌then◌else◌,
}
use tip_metro_drip_ecommerce.Base.Action.{
  Action, atomic, pure, gets, or_raise, ◌>>=◌, ◌>>◌, modify, raise_if,
}
use tip_metro_drip_ecommerce.Inventory.{
  StockRecord, available, ReservationStatus, active, committed, released, expired, Reservation,
  IdempotencyRecord, Ledger, find_key, find_reservation, save_stock, save_reservation,
  create_reservation, create_key,
}

pub data StockError : Type 0 where
  does_not_exist value_error insufficient_stock : StockError
  invalid_reservation_state invalid_stock_adjustment reservation_unavailable : StockError

abbrev pub Call : Type 0 → Type 0
Call = Action StockError Ledger

-- A line of a cart, its numbers as the caller sends them.
pub record Line : Type 0 where
  pub variant_id : ℕ
  pub qty : ℤ

-- What the provider reads from outside: the clock in seconds, the setting, and `hashlib.sha256` and
-- `json.dumps` of the standard library.
pub record Env : Type 0 where
  pub now : ℕ
  pub reservation_ttl_minutes : ℕ
  pub sha256 : String → String
  pub json_dumps : List Line → String

unfoldable pub insert_line : Line → List Line → List Line
insert_line l [] = l ∷ []
insert_line l (m ∷ ms) = if leb l.variant_id m.variant_id then l ∷ m ∷ ms else m ∷ insert_line l ms

-- `sorted(lines, key=variant_id)`, which keeps the order of equal keys.
unfoldable pub sorted : List Line → List Line
unfolding insert_line
sorted [] = []
sorted (l ∷ ls) = insert_line l (sorted ls)

unfoldable pub idempotency_key : Env → String → String → String
idempotency_key env route checkout_id = env.sha256 (str_append route (str_append ":" checkout_id))

unfoldable pub fingerprint : Env → List Line → String
fingerprint env lines = env.sha256 (env.json_dumps (sorted lines))

unfoldable pub get_stock : ℕ → Call StockRecord
get_stock v = do or_raise does_not_exist (← gets (λ s. lookup v s.stock))

unfoldable pub get_reservation : ℕ → Call Reservation
get_reservation k = do or_raise does_not_exist (← gets (λ s. find_reservation k s.reservations))

abbrev pub ended : Env → ReservationStatus → Reservation → Reservation
ended env terminal r = record r { status = terminal; ended_at = some env.now }

-- `_end_active_reservation`
unfoldable pub end_active : Env → Reservation → ReservationStatus → Call Reservation
unfolding get_stock
end_active env r terminal = do
  stock ← get_stock r.variant_id
  raise_if (ltb stock.qty_reserved r.qty) invalid_reservation_state
  modify (save_stock r.variant_id (record stock { qty_reserved = stock.qty_reserved - r.qty }))
  modify (save_reservation r.pk (ended env terminal r))
  pure (ended env terminal r)

-- Check the counters of one SKU, raise `qty_reserved` and write the hold.
unfoldable pub hold : ℕ → ℕ → (ℕ → Reservation) → Call Reservation
unfolding get_stock available
hold v qty row = do
  stock ← get_stock v
  raise_if (ltb_ℤ (available stock) (pos qty)) insufficient_stock
  modify (save_stock v (record stock { qty_reserved = stock.qty_reserved + qty }))
  pk ← gets (λ s. s.next_pk)
  modify (create_reservation (row pk))
  pure (row pk)

abbrev pub new_hold : ℕ → ℕ → String → String → Option ℕ → ℕ → ℕ → Reservation
new_hold v qty session_key checkout_id order_id expires_at pk = record {
  pk = pk;
  variant_id = v;
  qty = qty;
  status = active;
  session_key = session_key;
  checkout_id = checkout_id;
  order_id = order_id;
  expires_at = expires_at;
  ended_at = none;
}

abbrev pub in_group : String → Reservation → Bool
in_group checkout_id r = str_eq r.checkout_id checkout_id

-- The row of an earlier call under this key decides: another payload is refused, the same one is
-- answered with the holds that the first call placed.
unfoldable pub replay_or_claim :
    {A : Type 0}
    → String
    → String
    → ℕ
    → StockError
    → (Ledger → A)
    → Call A
    → Option IdempotencyRecord
    → Call A
replay_or_claim key print code changed replayed work (some record_) =
    raise_if (not (str_eq record_.request_fingerprint print)) changed >> gets replayed
replay_or_claim key print code changed replayed work none =
    modify (create_key (record { key_hash = key; request_fingerprint = print; status_code = code }))
    >> work

-- A block under a replay guard: the key is claimed in the transaction of the work itself.
unfoldable pub guarded :
    {A : Type 0} → String → String → ℕ → StockError → (Ledger → A) → Call A → Call A
unfolding replay_or_claim
guarded key print code changed replayed work = atomic (do
  claimed ← gets (λ s. find_key key s.keys)
  replay_or_claim key print code changed replayed work claimed)

abbrev pub same_order : Option ℕ → Option ℕ → Bool
same_order none none = true
same_order none (some b) = false
same_order (some a) none = false
same_order (some a) (some b) = a == b

abbrev pub absent_stock_record : StockRecord
absent_stock_record = record { qty_on_hand = 0; qty_reserved = 0; low_stock_threshold = 0 }

pub get_stock_record : ℕ → Ledger → StockRecord
get_stock_record v s = elim (lookup v s.stock) [ none ↦ absent_stock_record | some r ↦ r ]
