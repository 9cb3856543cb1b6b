-- ===== src/Checkout/Saga/Steps.antt =====
-- apps/orders/checkout.py: what each step of the saga leaves, in the ledger and in the tables.
use tip_metro_drip_ecommerce.Orders.{Columns, Instance}
use tip_metro_drip_ecommerce.Orders.Write.{transition_to}
use tip_metro_drip_ecommerce.Checkout.Saga.{cancel_quietly}
use tip_metro_drip_ecommerce.Base.{
  ℕ, zero, suc, ◌+◌, ◌≡◌, ◌≢◌, refl, sym, ap, ◌∙◌, subst, String, Bool, true, false, Option, none,
  some, Dict, inl, inr, ◌⊎◌, arith,
}
use tip_metro_drip_ecommerce.Base.Action.{Result, ok, err, Action, pure, raise, atomic, ◌>>◌}
use tip_metro_drip_ecommerce.Base.Invert.{bind_ok, bind_err, call_cases}
use tip_metro_drip_ecommerce.Base.Keeps.{atomic_ok, atomic_err}
use tip_metro_drip_ecommerce.Orders.{Table, OrderError}
use tip_metro_drip_ecommerce.Checkout.Saga.{
  StockFailure, reservation_unavailable, Fault, deadlock, operational_error, database_error,
  Failure, checkout_error, duplicate_hold, number, stock, fault, order, payment_session_error,
  StockLedger, Shop, Env, Saga, catch, on_ledger, on_orders, create_order, build_order,
  release_quietly, release_and_raise, after_attempt, build_each,
}

module _ {L A : Type 0} (s : Shop L) where
  pub catch_ok :
      (m : Saga L A) (h : Failure → Saga L A) {a : A} {t : Shop L}
      → m s ≡ (ok a, t)
      → catch m h s ≡ (ok a, t)
  catch_ok m h e = ground arith

  pub catch_err :
      (m : Saga L A) (h : Failure → Saga L A) {x : Failure} {t : Shop L}
      → m s ≡ (err x, t)
      → catch m h s ≡ h x t
  catch_err m h e = ground arith

  pub on_ledger_ok :
      (m : Action StockFailure L A) {a : A} {u : L}
      → m s.ledger ≡ (ok a, u)
      → on_ledger m s ≡ (ok a, record s { ledger = u })
  on_ledger_ok m e = ground arith

  pub on_ledger_err :
      (m : Action StockFailure L A) {x : StockFailure} {u : L}
      → m s.ledger ≡ (err x, u)
      → on_ledger m s ≡ (err (stock x), record s { ledger = u })
  on_ledger_err m e = ground arith

  pub quiet_ok :
      (m : Action OrderError Table A) {a : A} {u : Table}
      → m s.orders ≡ (ok a, u)
      → catch {E' = Failure} (on_orders m >> pure tt) (λ _. pure tt) s
        ≡ (ok tt, record s { orders = u })
  quiet_ok m e = ground arith

  pub quiet_err :
      (m : Action OrderError Table A) {x : OrderError} {u : Table}
      → m s.orders ≡ (err x, u)
      → catch {E' = Failure} (on_orders m >> pure tt) (λ _. pure tt) s
        ≡ (ok tt, record s { orders = u })
  quiet_err m e = ground arith

module _ {L : Type 0} where
  pub cancel_quietly_cases :
      (k : ℕ) (c : Columns) (s : Shop L)
      → (o : Table) × (cancel_quietly k c s ≡ (ok tt, record s { orders = o }))
  cancel_quietly_cases k c s = elim (call_cases (transition_to row "cancelled" s.orders)) [
    | inl (a, u, e) ↦ (u, quiet_ok s (transition_to row "cancelled") e)
    | inr (x, u, e) ↦ (u, quiet_err s (transition_to row "cancelled") e)
  ]
    where
      row : Instance
      row = record { adding = false; pk = k; columns = c; status = "pending" }

-- What a checkout relies on: `held` counts the units that the ledger holds for a checkout. A call of
-- `reserve_lines` that raises has held nothing, unless its answer is uncertain, and a release that
-- returns has given everything back.
pub record IsStockLedger {L : Type 0} (ops : StockLedger L) (held : String → L → ℕ) : Type 0 where
  pub all_or_nothing :
      (c : String) (d : Dict ℕ) (u v : L) (e : StockFailure)
      → e ≢ reservation_unavailable
      → ops.reserve_lines c d u ≡ (err e, v)
      → held c v ≡ held c u
  pub gives_back : (c : String) (u v : L) → ops.release_holds c u ≡ (ok tt, v) → held c v ≡ 0

module _ {L : Type 0} (ops : StockLedger L) where
  pub release_quietly_runs :
      (c : String) (s : Shop L)
      → ((u : L) × (ops.release_holds c s.ledger ≡ (ok tt, u))
          × (release_quietly ops c s ≡ (ok true, record s { ledger = u })))
        ⊎ ((x : StockFailure) × (u : L) × (ops.release_holds c s.ledger ≡ (err x, u))
            × (release_quietly ops c s ≡ (ok false, record s { ledger = u })))
  release_quietly_runs c s = elim (call_cases (ops.release_holds c s.ledger)) [
    | inl (a, u, e) ↦ inl (
      u,
      e,
      catch_ok s (on_ledger (ops.release_holds c) >> pure true) (λ _. pure false)
          (bind_ok (on_ledger (ops.release_holds c)) (λ _. pure true) s
            (on_ledger_ok s (ops.release_holds c) e)),
    )
    | inr (x, u, e) ↦ inr (
      x,
      u,
      e,
      catch_err s (on_ledger (ops.release_holds c) >> pure true) (λ _. pure false)
          (bind_err (on_ledger (ops.release_holds c)) (λ _. pure true) s
            (on_ledger_err s (ops.release_holds c) e)),
    )
  ]

  pub release_and_raise_runs :
      {A : Type 0} (c : String) (x : Failure) (s : Shop L)
      → (u : L) × (release_and_raise {A = A} ops c x s ≡ (err x, record s { ledger = u }))
  release_and_raise_runs c x s = elim (release_quietly_runs c s) [
    | inl (u, e, r) ↦ (u, bind_ok (release_quietly ops c) (λ _. raise x) s r)
    | inr (y, u, e, r) ↦ (u, bind_ok (release_quietly ops c) (λ _. raise x) s r)
  ]

  pub after_attempt_cases :
      (c : String) (again : Saga L ℕ) (x : Failure)
      → (after_attempt ops c (some again) x ≡ again)
        ⊎ (after_attempt ops c (some again) x ≡ release_and_raise ops c x)
  after_attempt_cases c again checkout_error = inr refl
  after_attempt_cases c again payment_session_error = inr refl
  after_attempt_cases c again (stock e) = inr refl
  after_attempt_cases c again (fault deadlock) = inl refl
  after_attempt_cases c again (fault operational_error) = inr refl
  after_attempt_cases c again (fault database_error) = inr refl
  after_attempt_cases c again (order e) = inr refl
  after_attempt_cases c again (number e) = inr refl
  after_attempt_cases c again duplicate_hold = inr refl

module _ {L : Type 0} (ops : StockLedger L) (held : String → L → ℕ)
    (laws : IsStockLedger ops held) where
  -- Nothing is held for the checkout, or the ledger refused to give it back.
  abbrev pub IsFreed : String → L → Type 0
  IsFreed c u =
      (held c u ≡ 0) ⊎ ((v : L) × (e : StockFailure) × (ops.release_holds c v ≡ (err e, u)))

  pub release_quietly_cases :
      (c : String) (s : Shop L)
      → (b : Bool) × (u : L) × (release_quietly ops c s ≡ (ok b, record s { ledger = u }))
        × IsFreed c u
  release_quietly_cases c s = elim (release_quietly_runs ops c s) [
    | inl (u, e, r) ↦ (true, u, r, inl (laws.gives_back c s.ledger u e))
    | inr (x, u, e, r) ↦ (false, u, r, inr (s.ledger, x, e))
  ]

  pub release_and_raise_cases :
      {A : Type 0} (c : String) (x : Failure) (s : Shop L)
      → (u : L) × (release_and_raise {A = A} ops c x s ≡ (err x, record s { ledger = u }))
        × IsFreed c u
  release_and_raise_cases c x s =
      let (b, u, e, f) = release_quietly_cases c s in
      (u, bind_ok (release_quietly ops c) (λ _. raise x) s e, f)

  pub build_order_cases :
      (env : Env) (d : Dict ℕ) (fee attempt : ℕ) (s : Shop L)
      → ((k : ℕ) × (t : Shop L) × (build_order env d fee attempt s ≡ (ok k, t)))
        ⊎ ((x : Failure) × (build_order env d fee attempt s ≡ (err x, s)))
  unfolding build_order
  build_order_cases env d fee attempt s = go (env.fault_at attempt)
    where
      go :
          (o : Option Fault)
          → let m = elim o as (λ _. Saga L ℕ) [
            | none ↦ atomic (create_order env d fee)
            | some f ↦ raise (fault f)
          ] in
            ((k : ℕ) × (t : Shop L) × (m s ≡ (ok k, t))) ⊎ ((x : Failure) × (m s ≡ (err x, s)))
      go none = elim (call_cases (create_order env d fee s)) [
        | inl (k, t, e) ↦ inl (k, t, atomic_ok (create_order env d fee) s e)
        | inr (x, t, e) ↦ inr (x, atomic_err (create_order env d fee) s e)
      ]
      go (some f) = inr (fault f, refl)

  pub build_each_cases :
      (env : Env) (d : Dict ℕ) (fee n attempt : ℕ) (s : Shop L)
      → ((k : ℕ) × (t : Shop L) × (build_each ops env d fee n attempt s ≡ (ok k, t)))
        ⊎ ((x : Failure) × (u : L) × (build_each ops env d fee n attempt s
              ≡ (err x, record s { ledger = u }))
            × IsFreed env.checkout_id u)
  unfolding build_each
  build_each_cases env d fee zero attempt s = elim (build_order_cases env d fee attempt s) [
    | inl (k, t, e) ↦ inl (
      k,
      t,
      catch_ok s (build_order env d fee attempt) (after_attempt ops env.checkout_id none) e,
    )
    | inr (x, e) ↦
        let (u, r, f) = release_and_raise_cases env.checkout_id x s in
        inr (
          x,
          u,
          catch_err s (build_order env d fee attempt) (after_attempt ops env.checkout_id none) e
              ∙ r,
          f,
        )
  ]
  build_each_cases env d fee (suc n) attempt s = elim (build_order_cases env d fee attempt s) [
    | inl (k, t, e) ↦ inl (
      k,
      t,
      catch_ok s (build_order env d fee attempt) (after_attempt ops env.checkout_id (some again)) e,
    )
    | inr (x, e) ↦ elim (after_attempt_cases ops env.checkout_id again x) [
      | inl retried ↦
          subst Outcome
            (sym (
              catch_err s (build_order env d fee attempt)
                (after_attempt ops env.checkout_id (some again)) e
              ∙ ap (λ (m : Saga L ℕ). m s) retried))
            (build_each_cases env d fee n (attempt + 1) s)
      | inr given_up ↦
          let (u, r, f) = release_and_raise_cases env.checkout_id x s in
          inr (
            x,
            u,
            catch_err s (build_order env d fee attempt)
                  (after_attempt ops env.checkout_id (some again)) e
                ∙ (ap (λ (m : Saga L ℕ). m s) given_up ∙ r),
            f,
          )
    ]
  ]
    where
      again : Saga L ℕ
      again = build_each ops env d fee n (attempt + 1)

      Outcome : Result Failure ℕ × Shop L → Type 0
      Outcome p =
          ((k : ℕ) × (t : Shop L) × (p ≡ (ok k, t)))
          ⊎ ((x : Failure) × (u : L) × (p ≡ (err x, record s { ledger = u }))
              × IsFreed env.checkout_id u)
