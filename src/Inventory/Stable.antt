-- ===== src/Inventory/Stable.antt =====
-- The five kinds of write of apps/inventory/providers/local.py: an invariant that each of them keeps
-- is kept by every call.
use tip_metro_drip_ecommerce.Base.{ℕ, ℤ, ◌≤◌, ◌≡◌, some, true, false, Option, String}
use tip_metro_drip_ecommerce.Base.Keeps.{Keeps}
use tip_metro_drip_ecommerce.Inventory.{
  ReservationStatus, is_active, Reservation, IdempotencyRecord, MovementReason, Ledger,
  find_reservation, create_key,
}
use tip_metro_drip_ecommerce.Inventory.Provider.{Env, hold, new_hold, end_active}
use tip_metro_drip_ecommerce.Inventory.Settle.{sell}
use tip_metro_drip_ecommerce.Inventory.Adjust.{move_stock}

pub record IsStable (P : Ledger → Type 0) : Type 0 where
  pub hold :
      (v n : ℕ) (session_key checkout_id : String) (o : Option ℕ) (expires_at : ℕ)
      → 1 ≤ n
      → Keeps P (hold v n (new_hold v n session_key checkout_id o expires_at))
  pub end_active :
      (env : Env) (r : Reservation) (t : ReservationStatus) (s : Ledger)
      → find_reservation r.pk s.reservations ≡ some r
      → is_active r.status ≡ true
      → is_active t ≡ false
      → P s
      → P (end_active env r t s).1
  pub sell :
      (env : Env) (o : Option ℕ) (r : Reservation) (s : Ledger)
      → find_reservation r.pk s.reservations ≡ some r
      → P s
      → P (sell env o r s).1
  pub move_stock :
      (v : ℕ) (d : ℤ) (why : MovementReason) (o : Option ℕ) → Keeps P (move_stock v d why o)
  pub create_key : (r : IdempotencyRecord) (s : Ledger) → P s → P (create_key r s)
