-- ===== src/Inventory/Reserve.antt =====
-- `reserve_stock` and `reserve_lines` of apps/inventory/providers/local.py
pub mod Invariants
pub mod Effects
use tip_metro_drip_ecommerce.Base.{
  ℕ, ◌+◌, ◌*◌, String, Bool, true, false, Option, none, some, List, [], ◌∷◌, select, ◌==◌, str_eq,
  if◌then◌else◌, Value, as_int, as_positive,
}
use tip_metro_drip_ecommerce.Base.Action.{pure, gets, or_raise, atomic, ◌>>=◌, ◌>>◌, raise_if}
use tip_metro_drip_ecommerce.Inventory.{Reservation, find_key}
use tip_metro_drip_ecommerce.Inventory.Provider.{
  value_error, reservation_unavailable, Call, Line, Env, sorted, idempotency_key, fingerprint, hold,
  new_hold, in_group, guarded,
}

-- `_require_positive_int`
abbrev pub require_positive : Option ℕ → Call ℕ
require_positive = or_raise value_error

abbrev pub positive_value : Value → Option ℕ
positive_value x = elim (as_int x) [ none ↦ none | some z ↦ as_positive z ]

unfoldable pub reserve_stock : Env → ℕ → Value → String → Option ℕ → String → Call Reservation
unfolding hold
reserve_stock env v qty session_key order_id checkout_id = do
  n ← require_positive (positive_value qty)
  atomic (
      hold v n (
        new_hold v n session_key checkout_id order_id (env.now + env.reservation_ttl_minutes * 60)))

pub reserve_each : String → String → ℕ → List Line → Call (List Reservation)
unfolding hold
reserve_each session_key checkout_id expires_at [] = pure []
reserve_each session_key checkout_id expires_at (l ∷ ls) =
    require_positive (as_positive l.qty) >>= λ n.
    hold l.variant_id n (new_hold l.variant_id n session_key checkout_id none expires_at) >>= λ r.
    reserve_each session_key checkout_id expires_at ls >>= λ rest. pure (r ∷ rest)

-- `ttl_minutes or settings.RESERVATION_TTL_MINUTES`
abbrev pub ttl_or_default : Env → Option ℕ → ℕ
ttl_or_default env none = env.reservation_ttl_minutes
ttl_or_default env (some m) = if m == 0 then env.reservation_ttl_minutes else m

abbrev pub is_empty : List Line → Bool
is_empty [] = true
is_empty (l ∷ ls) = false

unfoldable pub reserve_lines :
    Env → String → List Line → String → Option ℕ → Call (List Reservation)
unfolding reserve_each guarded idempotency_key fingerprint
reserve_lines env checkout_id lines session_key ttl_minutes =
    let ordered = sorted lines in
    let key = idempotency_key env "reserve_lines" checkout_id in
    do
      raise_if (str_eq checkout_id "") value_error
      raise_if (is_empty lines) value_error
      guarded key (fingerprint env ordered) 201 reservation_unavailable
          (λ s. select (in_group checkout_id) s.reservations)
          (reserve_each session_key checkout_id (env.now + ttl_or_default env ttl_minutes * 60)
            ordered)
