-- ===== src/Inventory/Reserve/Invariants.antt =====
-- Reserving keeps every invariant that its writes keep, whether it returns or raises.
use tip_metro_drip_ecommerce.Base.{
  ℕ, ◌+◌, ◌*◌, ℤ, Option, none, String, select, List, [], ◌∷◌, Option-cases, inl, inr, str_eq,
  Value, as_positive, as_positive_bound, ◌≤◌, ◌≡◌, some, as_int,
}
use tip_metro_drip_ecommerce.Base.Action.{pure, ◌>>=◌, ◌>>◌, raise_if}
use tip_metro_drip_ecommerce.Inventory.{Ledger}
use tip_metro_drip_ecommerce.Inventory.Stable.{IsStable}
use tip_metro_drip_ecommerce.Inventory.Provider.{
  value_error, reservation_unavailable, Line, Env, sorted, idempotency_key, fingerprint, hold,
  new_hold, in_group, guarded,
}
use tip_metro_drip_ecommerce.Base.Keeps.{Keeps, atomic-Keeps, bind-Keeps, raise_if-Keeps}
use tip_metro_drip_ecommerce.Inventory.Provider.Steps.{guarded-Keeps}
use tip_metro_drip_ecommerce.Inventory.Reserve.{
  positive_value, reserve_stock, reserve_each, ttl_or_default, is_empty, reserve_lines,
}

positive_value_bound : (x : Value) {n : ℕ} → positive_value x ≡ some n → 1 ≤ n
positive_value_bound x {n} e = bound (as_int x) e
  where
    bound : (o : Option ℤ) → (elim o [ none ↦ none | some z ↦ as_positive z ]) ≡ some n → 1 ≤ n
    bound none e = cc
    bound (some z) e = as_positive_bound z e

module _ {P : Ledger → Type 0} (stable : IsStable P) (env : Env) where
  pub reserve_stock-Keeps :
      (v : ℕ) (qty : Value) (session_key : String) (o : Option ℕ) (checkout_id : String)
      → Keeps P (reserve_stock env v qty session_key o checkout_id)
  unfolding reserve_stock
  reserve_stock-Keeps v qty k o c s h = elim (Option-cases (positive_value qty)) [
    | inl bad ↦ rw bad h
    | inr (n, e) ↦ rw e (
        atomic-Keeps P (hold v n (new_hold v n k c o (env.now + env.reservation_ttl_minutes * 60)))
          (stable.hold v n k c o (env.now + env.reservation_ttl_minutes * 60)
            (positive_value_bound qty e))
          s h)
  ]

  reserve_each-Keeps :
      (session_key checkout_id : String) (expires_at : ℕ) (ls : List Line)
      → Keeps P (reserve_each session_key checkout_id expires_at ls)
  unfolding reserve_each
  reserve_each-Keeps k c t [] s h = h
  reserve_each-Keeps k c t (l ∷ ls) s h = elim (Option-cases (as_positive l.qty)) [
    | inl bad ↦ rw bad h
    | inr (n, e) ↦ rw e (
        bind-Keeps P (hold l.variant_id n (new_hold l.variant_id n k c none t))
          (λ r. reserve_each k c t ls >>= λ rest. pure (r ∷ rest))
          (stable.hold l.variant_id n k c none t (as_positive_bound l.qty e))
          (λ r.
            bind-Keeps P (reserve_each k c t ls) (λ rest. pure (r ∷ rest))
              (reserve_each-Keeps k c t ls) (λ _ _ q. q))
          s h)
  ]

  pub reserve_lines-Keeps :
      (checkout_id : String) (lines : List Line) (session_key : String) (ttl : Option ℕ)
      → Keeps P (reserve_lines env checkout_id lines session_key ttl)
  unfolding reserve_lines
  reserve_lines-Keeps c lines k ttl =
      let key = idempotency_key env "reserve_lines" c in
      let print = fingerprint env (sorted lines) in
      let t = env.now + ttl_or_default env ttl * 60 in
      let old = λ (s : Ledger). select (in_group c) s.reservations in
      let work = reserve_each k c t (sorted lines) in
      let block = guarded key print 201 reservation_unavailable old work in
      raise_if-Keeps P (str_eq c "") value_error (raise_if (is_empty lines) value_error >> block) (
        raise_if-Keeps P (is_empty lines) value_error block (
          guarded-Keeps P key print 201 reservation_unavailable old work stable.create_key
            (reserve_each-Keeps k c t (sorted lines))))
