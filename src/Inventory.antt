-- ===== src/Inventory.antt =====
-- The rows of apps/inventory/models.py, and the tables of the stock ledger. A row is found by its
-- key; a list of rows stands in the order in which the rows were written, which is the order of the
-- primary keys.
pub mod Soundness
pub mod Provider
pub mod Reserve
pub mod Settle
pub mod Adjust
pub mod Stable
pub mod Sound
pub mod Keyed
pub mod Claimed
pub mod Frees
pub mod Atomicity
pub mod History
mod Tests
use tip_metro_drip_ecommerce.Base.{
  ℕ, ◌+◌, ℤ, pos, ◌-ℤ◌, String, Bool, true, false, Option, none, some, List, [], ◌∷◌, ◌++◌, Dict,
  lookup, insert, ◌==◌, str_eq, if◌then◌else◌,
}

pub record StockRecord : Type 0 where
  pub qty_on_hand : ℕ
  pub qty_reserved : ℕ
  pub low_stock_threshold : ℕ

-- The property `available`, which Python computes with a sign.
unfoldable pub available : StockRecord → ℤ
available r = pos r.qty_on_hand -ℤ pos r.qty_reserved

pub data ReservationStatus : Type 0 where
  active committed released expired : ReservationStatus

abbrev pub is_active : ReservationStatus → Bool
is_active active = true
is_active committed = false
is_active released = false
is_active expired = false

pub record Reservation : Type 0 where
  pub pk : ℕ
  pub variant_id : ℕ
  pub qty : ℕ
  pub status : ReservationStatus
  pub session_key : String
  pub checkout_id : String
  pub order_id : Option ℕ
  pub expires_at : ℕ
  pub ended_at : Option ℕ

pub record IdempotencyRecord : Type 0 where
  pub key_hash : String
  pub request_fingerprint : String
  pub status_code : ℕ

pub data MovementReason : Type 0 where
  sale restock adjustment return : MovementReason

-- `MovementReason(reason)`, which raises on any other text.
unfoldable pub movement_reason : String → Option MovementReason
movement_reason s =
    if str_eq s "sale"
    then some sale
    else if str_eq s "restock"
    then some restock
    else if str_eq s "adjustment"
    then some adjustment
    else if str_eq s "return"
    then some return
    else none

pub record StockMovement : Type 0 where
  pub variant_id : ℕ
  pub delta : ℤ
  pub reason : MovementReason
  pub ref_order_id : Option ℕ

pub record Ledger : Type 0 where
  pub stock : Dict StockRecord
  pub reservations : List Reservation
  pub next_pk : ℕ
  pub movements : List StockMovement
  pub keys : List IdempotencyRecord

abbrev pub find_reservation : ℕ → List Reservation → Option Reservation
find_reservation k [] = none
find_reservation k (r ∷ rs) = if r.pk == k then some r else find_reservation k rs

-- `reservation.save()`: the row with this key is replaced.
abbrev pub put_reservation : ℕ → Reservation → List Reservation → List Reservation
put_reservation k new [] = []
put_reservation k new (r ∷ rs) = if r.pk == k then new ∷ rs else r ∷ put_reservation k new rs

abbrev pub find_key : String → List IdempotencyRecord → Option IdempotencyRecord
find_key k [] = none
find_key k (r ∷ rs) = if str_eq r.key_hash k then some r else find_key k rs

abbrev pub save_stock : ℕ → StockRecord → Ledger → Ledger
save_stock v r s = record s { stock = insert v r s.stock }

abbrev pub save_reservation : ℕ → Reservation → Ledger → Ledger
save_reservation k r s = record s { reservations = put_reservation k r s.reservations }

-- `Reservation.objects.create(...)`: the row takes the next primary key.
abbrev pub create_reservation : Reservation → Ledger → Ledger
create_reservation r s = record s {
  reservations = s.reservations ++ r ∷ [];
  next_pk = s.next_pk + 1;
}

abbrev pub create_movement : StockMovement → Ledger → Ledger
create_movement m s = record s { movements = s.movements ++ m ∷ [] }

abbrev pub create_key : IdempotencyRecord → Ledger → Ledger
create_key r s = record s { keys = s.keys ++ r ∷ [] }
