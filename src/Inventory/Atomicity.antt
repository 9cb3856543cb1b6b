-- ===== src/Inventory/Atomicity.antt =====
-- A call of the provider that raises has written nothing.
use tip_metro_drip_ecommerce.Base.{ℕ, ◌+◌, ◌*◌, Option, String, select, List, [], str_eq, Value}
use tip_metro_drip_ecommerce.Base.Action.{gets, atomic, ◌>>=◌, ◌>>◌, raise_if}
use tip_metro_drip_ecommerce.Inventory.{Reservation, Ledger}
use tip_metro_drip_ecommerce.Inventory.Provider.{
  value_error, invalid_stock_adjustment, reservation_unavailable, Line, Env, sorted,
  idempotency_key, fingerprint, get_reservation, hold, new_hold, in_group, guarded,
}
use tip_metro_drip_ecommerce.Base.Keeps.{
  IsAllOrNothing, atomic-IsAllOrNothing, raise_if-IsAllOrNothing, or_raise-IsAllOrNothing,
  reads-IsAllOrNothing,
}
use tip_metro_drip_ecommerce.Inventory.Provider.Steps.{guarded-IsAllOrNothing}
use tip_metro_drip_ecommerce.Inventory.Reserve.{
  reserve_stock, reserve_lines, reserve_each, ttl_or_default, is_empty, positive_value,
}
use tip_metro_drip_ecommerce.Inventory.Settle.{
  sell, commit_each, release, commit_reservation, commit_holds, release_reservation,
}
use tip_metro_drip_ecommerce.Inventory.Adjust.{
  adjust_stock, restore_order_stock, restore_each, move_stock, adjustment_args,
}
use tip_metro_drip_ecommerce.Inventory.Adjust.Invariants.{adjustment_args_only_checks}

-- Each of the seven operations that run in one transaction is all or nothing: if the call raises,
-- for any reason and at any line of a cart, the tables are what they were before it.
pub operations-IsAllOrNothing :
    (env : Env)
    → ((v : ℕ) (q : Value) (k : String) (o : Option ℕ) (c : String)
        → IsAllOrNothing (reserve_stock env v q k o c))
      × ((c : String) (ls : List Line) (k : String) (ttl : Option ℕ)
          → IsAllOrNothing (reserve_lines env c ls k ttl))
      × ((k : ℕ) (o : Option ℕ) → IsAllOrNothing (commit_reservation env k o))
      × ((c : String) (o : Option ℕ) → IsAllOrNothing (commit_holds env c o))
      × ((k : ℕ) → IsAllOrNothing (release_reservation env k))
      × ((v : ℕ) (d : Value) (why : String) (o : Option ℕ)
          → IsAllOrNothing (adjust_stock v d why o))
      × ((o : ℕ) (text : String) (ls : List Line)
          → IsAllOrNothing (restore_order_stock env o text ls))
unfolding reserve_stock reserve_lines commit_reservation commit_holds release_reservation
    adjust_stock restore_order_stock
operations-IsAllOrNothing env = (
  λ v q k o c.
      let one =
        λ (n : ℕ). hold v n (new_hold v n k c o (env.now + env.reservation_ttl_minutes * 60)) in
      or_raise-IsAllOrNothing (positive_value q) value_error (λ n. atomic (one n))
        (λ n. atomic-IsAllOrNothing (one n)),
  λ c ls k ttl.
      let work = reserve_each k c (env.now + ttl_or_default env ttl * 60) (sorted ls) in
      let print = fingerprint env (sorted ls) in
      let key = idempotency_key env "reserve_lines" c in
      let group : Ledger → List Reservation = λ s. select (in_group c) s.reservations in
      let block = guarded key print 201 reservation_unavailable group work in
      raise_if-IsAllOrNothing (str_eq c "") value_error
        (raise_if (is_empty ls) value_error >> block)
        (raise_if-IsAllOrNothing (is_empty ls) value_error block
          (guarded-IsAllOrNothing key print 201 reservation_unavailable group work)),
  λ k o. atomic-IsAllOrNothing (get_reservation k >>= sell env o),
  λ c o.
      atomic-IsAllOrNothing
        (gets (λ s. select (in_group c) s.reservations) >>= commit_each env o []),
  λ k. atomic-IsAllOrNothing (get_reservation k >>= λ r. release env r r.status),
  λ v d why o.
      reads-IsAllOrNothing (adjustment_args d why) (λ (x, y). atomic (move_stock v x y o))
        (adjustment_args_only_checks d why) (λ (x, y). atomic-IsAllOrNothing (move_stock v x y o)),
  λ o text ls.
      guarded-IsAllOrNothing (idempotency_key env "refund" text) (fingerprint env (sorted ls)) 200
        invalid_stock_adjustment (λ _. tt) (restore_each o (sorted ls)),
)
