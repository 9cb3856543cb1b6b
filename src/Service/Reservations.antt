-- ===== src/Service/Reservations.antt =====
-- services/inventory/api.py: the life of a reservation behind HTTP.
use tip_metro_drip_ecommerce.Base.{
  ℕ, ◌+◌, ◌-◌, ◌*◌, pos, neg_ℤ, ltb_ℤ, String, str_append, str_eq, Bool, true, false, not, ◌&&◌,
  ◌||◌, Option, none, some, List, [], ◌∷◌, length, select, lookup, ltb, leb, ◌==◌, if◌then◌else◌,
  as_positive,
}
use tip_metro_drip_ecommerce.Base.Action.{
  Action, pure, gets, or_raise, ◌>>=◌, ◌>>◌, modify, raise_if,
}
use tip_metro_drip_ecommerce.Inventory.{
  available, ReservationStatus, committed, released, expired, is_active, Reservation, sale, Ledger,
  save_stock, save_reservation, create_reservation, create_movement,
}
use tip_metro_drip_ecommerce.Inventory.Provider.{Line, sorted, new_hold, in_group}
use tip_metro_drip_ecommerce.Inventory.Reserve.{is_empty}
use tip_metro_drip_ecommerce.Service.{
  ReservationOut, reserve_response, commit_response, release_response, sweep_response,
  reserve_request, commit_request, release_request, HttpError, unknown_variant, insufficient_stock,
  counters_cannot_cover_sale, reserved_underflow, unprocessable, server_error, Store, Response, Env,
  Block, on_tables, guarded, respond,
}

abbrev pub Work : Type 0 → Type 0
Work = Action HttpError Ledger

abbrev pub default_ttl_minutes : ℕ
default_ttl_minutes = 15

abbrev pub out : Reservation → ReservationOut
out r = record { id = r.pk; variant_id = r.variant_id; qty = r.qty }

abbrev pub outs : List Reservation → List ReservationOut
outs [] = []
outs (r ∷ rs) = out r ∷ outs rs

-- One line of `create_reservations`, once its quantity is known to be positive.
unfoldable pub place : ℕ → ℕ → (ℕ → Reservation) → Work Reservation
unfolding available
place v qty row = do
  stock ← or_raise unknown_variant (← gets (λ s. lookup v s.stock))
  raise_if (ltb_ℤ (available stock) (pos qty)) insufficient_stock
  modify (save_stock v (record stock { qty_reserved = stock.qty_reserved + qty }))
  pk ← gets (λ s. s.next_pk)
  modify (create_reservation (row pk))
  pure (row pk)

-- Its loop. `ReserveLine` has been checked: a quantity below 1 is a body that is refused.
unfoldable pub place_each : String → String → ℕ → List Line → Work (List Reservation)
unfolding place
place_each session_key checkout_id expires_at [] = pure []
place_each session_key checkout_id expires_at (l ∷ ls) =
    or_raise unprocessable (as_positive l.qty) >>= λ n.
    place l.variant_id n (new_hold l.variant_id n session_key checkout_id none expires_at) >>= λ r.
    place_each session_key checkout_id expires_at ls >>= λ rest. pure (r ∷ rest)

-- `payload.ttl_minutes or DEFAULT_TTL_MINUTES`
abbrev pub ttl_or_default : Option ℕ → ℕ
ttl_or_default none = default_ttl_minutes
ttl_or_default (some m) = if m == 0 then default_ttl_minutes else m

-- `idempotency_key or checkout_id`
abbrev pub key_or : Option String → String → String
key_or none other = other
key_or (some k) other = if str_eq k "" then other else k

abbrev pub all_positive : List Line → Bool
all_positive [] = true
all_positive (l ∷ ls) = elim (as_positive l.qty) [ none ↦ false | some n ↦ true ] && all_positive ls

-- The transaction of `create_reservations`.
unfoldable pub reserve_block :
    Env → String → List Line → String → Option ℕ → Option String → Block Response
unfolding place_each guarded
reserve_block env checkout_id lines session_key ttl key =
    let expires_at = env.now + ttl_or_default ttl * 60 in
    guarded env "/v1/reservations" (key_or key checkout_id)
      (reserve_request checkout_id lines session_key ttl) 201
      (place_each session_key checkout_id expires_at (sorted lines))
      (λ rows. reserve_response checkout_id (outs rows) expires_at)

-- The stored status is sent; the bounds on the length of `checkout_id` are not modelled.
unfoldable pub create_reservations :
    Env → String → List Line → String → Option ℕ → Option String → Action HttpError Store Response
unfolding reserve_block respond
create_reservations env checkout_id lines session_key ttl key =
    raise_if (is_empty lines || not (all_positive lines)) unprocessable
    >> respond (λ stored. stored) (reserve_block env checkout_id lines session_key ttl key)

unfoldable pub insert_by_variant : Reservation → List Reservation → List Reservation
insert_by_variant r [] = r ∷ []
insert_by_variant r (x ∷ xs) =
    if leb r.variant_id x.variant_id then r ∷ x ∷ xs else x ∷ insert_by_variant r xs

-- `.order_by(Reservation.variant_id)`
unfoldable pub by_variant : List Reservation → List Reservation
unfolding insert_by_variant
by_variant [] = []
by_variant (r ∷ rs) = insert_by_variant r (by_variant rs)

abbrev pub sold_to : ℕ → Option ℕ → Reservation → Reservation
sold_to now order_ref r = record r { status = committed; order_id = order_ref; ended_at = some now }

-- One reservation of `commit_reservations`. A `qty_reserved` below zero is refused by the unsigned
-- column when the session is flushed.
unfoldable pub sell_row : ℕ → Option ℕ → Reservation → Work Reservation
sell_row now order_ref r = do
  stock ← or_raise counters_cannot_cover_sale (← gets (λ s. lookup r.variant_id s.stock))
  raise_if (ltb stock.qty_on_hand r.qty) counters_cannot_cover_sale
  raise_if (ltb stock.qty_reserved r.qty) server_error
  modify (
      save_stock r.variant_id (record stock {
        qty_on_hand = stock.qty_on_hand - r.qty;
        qty_reserved = stock.qty_reserved - r.qty;
      }))
  modify (
      create_movement (record {
        variant_id = r.variant_id;
        delta = neg_ℤ r.qty;
        reason = sale;
        ref_order_id = order_ref;
      }))
  modify (save_reservation r.pk (sold_to now order_ref r))
  pure (sold_to now order_ref r)

unfoldable pub sell_each : ℕ → Option ℕ → List Reservation → Work (List Reservation)
unfolding sell_row
sell_each now order_ref [] = pure []
sell_each now order_ref (r ∷ rs) =
    sell_row now order_ref r >>= λ r'. sell_each now order_ref rs >>= λ rest. pure (r' ∷ rest)

abbrev pub open_rows : String → Ledger → List Reservation
open_rows checkout_id s =
    by_variant (select (λ r. in_group checkout_id r && is_active r.status) s.reservations)

unfoldable pub sell_group : ℕ → Option ℕ → String → Work (List Reservation)
unfolding sell_each
sell_group now order_ref checkout_id = gets (open_rows checkout_id) >>= sell_each now order_ref

unfoldable pub commit_block : Env → String → String → Option ℕ → Option String → Block Response
unfolding sell_group guarded
commit_block env checkout_id order_no order_ref key =
    guarded env "/v1/reservations/{checkout_id}/commit"
      (key_or key (str_append checkout_id ":commit")) (commit_request order_no order_ref) 200
      (sell_group env.now order_ref checkout_id)
      (λ rows. commit_response checkout_id (length rows) (outs rows))

unfoldable pub commit_reservations :
    Env → String → String → Option ℕ → Option String → Action HttpError Store Response
unfolding commit_block respond
commit_reservations env checkout_id order_no order_ref key =
    respond (λ _. 200) (commit_block env checkout_id order_no order_ref key)

abbrev pub ended_at_now : ℕ → ReservationStatus → Reservation → Reservation
ended_at_now now terminal r = record r { status = terminal; ended_at = some now }

-- One reservation of `_release_all`.
unfoldable pub end_row : ℕ → ReservationStatus → Reservation → Work (Unit {0})
end_row now terminal r = do
  stock ← or_raise reserved_underflow (← gets (λ s. lookup r.variant_id s.stock))
  raise_if (ltb stock.qty_reserved r.qty) reserved_underflow
  modify (save_stock r.variant_id (record stock { qty_reserved = stock.qty_reserved - r.qty }))
  modify (save_reservation r.pk (ended_at_now now terminal r))

-- `_release_all`
unfoldable pub release_all : ℕ → ReservationStatus → List Reservation → Work ℕ
unfolding end_row
release_all now terminal [] = pure 0
release_all now terminal (r ∷ rs) =
    end_row now terminal r >> (release_all now terminal rs >>= λ n. pure (n + 1))

unfoldable pub release_group : ℕ → String → Work ℕ
unfolding release_all
release_group now checkout_id = gets (open_rows checkout_id) >>= release_all now released

unfoldable pub release_block : Env → String → Option String → Block Response
unfolding release_group guarded
release_block env checkout_id key =
    guarded env "/v1/reservations/{checkout_id}/release"
      (key_or key (str_append checkout_id ":release")) release_request 200
      (release_group env.now checkout_id) (release_response checkout_id)

unfoldable pub release_reservations : Env → String → Option String → Action HttpError Store Response
unfolding release_block respond
release_reservations env checkout_id key = respond (λ _. 200) (release_block env checkout_id key)

abbrev pub overdue_rows : ℕ → Ledger → List Reservation
overdue_rows now s =
    by_variant (select (λ r. is_active r.status && leb r.expires_at now) s.reservations)

unfoldable pub sweep : ℕ → Work ℕ
unfolding release_all
sweep now = gets (overdue_rows now) >>= release_all now expired

unfoldable pub sweep_block : Env → Block Response
unfolding sweep
sweep_block env = on_tables (sweep env.now) >>= λ n.
    pure (record { status_code = 200; replayed = false; body = sweep_response n })

-- One transaction, and no idempotency key.
unfoldable pub expire_reservations : Env → Action HttpError Store Response
unfolding sweep_block respond
expire_reservations env = respond (λ _. 200) (sweep_block env)
