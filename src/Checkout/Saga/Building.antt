-- ===== src/Checkout/Saga/Building.antt =====
-- apps/orders/checkout.py: the order that `_build_order` writes, through the retries.
use tip_metro_drip_ecommerce.Base.{
  ℕ, zero, suc, ◌+◌, ◌≡◌, refl, sym, ◌∙◌, subst, String, not, ◌||◌, Option, none, some, List, [],
  ◌∷◌, ◌++◌, Dict, Bool-cases, inl, inr, ◌⊎◌, arith,
}
use tip_metro_drip_ecommerce.Base.Action.{Result, ok, err, Action, raise, atomic, ◌>>=◌}
use tip_metro_drip_ecommerce.Base.Invert.{bind_ok, bind_err, call_cases}
use tip_metro_drip_ecommerce.Base.Keeps.{atomic_ok, atomic_err}
use tip_metro_drip_ecommerce.Orders.{
  OrderStatus, pending, order_status, Columns, Table, OrderError, integrity_error, reconciles,
}
use tip_metro_drip_ecommerce.Orders.Write.{insert_row, initial_status, number_taken}
use tip_metro_drip_ecommerce.Orders.Number.{NumberError, next_order_no}
use tip_metro_drip_ecommerce.Checkout.Saga.{
  StockFailure, insufficient_stock, reservation_unavailable, refused, stock, Failure, number, order,
  fault, duplicate_hold, Fault, active, StockLedger, Shop, Env, Saga, on_ledger, on_orders,
  on_numbers, order_items, hold_taken, order_columns, write_receipt, write_order, create_order,
  build_order, release_and_raise, after_attempt, build_each, after_reserve, reserve,
}
use tip_metro_drip_ecommerce.Checkout.Saga.Steps.{
  catch_ok, catch_err, on_ledger_ok, on_ledger_err, after_attempt_cases, release_and_raise_runs,
}

abbrev with_row : Columns → OrderStatus → Table → Table
with_row c status t = record t {
  rows = t.rows ++ (t.next_pk, record { columns = c; status = status }) ∷ [];
  next_pk = t.next_pk + 1;
}

insert_row_cases :
    (c : Columns) (status : OrderStatus) (t : Table)
    → (insert_row c status t ≡ (ok t.next_pk, with_row c status t))
      ⊎ (insert_row c status t ≡ (err integrity_error, t))
unfolding insert_row
insert_row_cases c status t =
    elim (Bool-cases (number_taken c.order_no t.rows || not (reconciles c))) [
      | inl b ↦ inr (rw b refl)
      | inr b ↦ inl (rw b refl)
    ]

module _ {L A : Type 0} (s : Shop L) where
  on_numbers_cases :
      (m : Action NumberError (Dict ℕ) A)
      → ((a : A) × (n : Dict ℕ) × (m s.numbers ≡ (ok a, n))
          × (on_numbers m s ≡ (ok a, record s { numbers = n })))
        ⊎ ((x : Failure) × (n : Dict ℕ) × (on_numbers m s ≡ (err x, record s { numbers = n })))
  on_numbers_cases m = elim (call_cases (m s.numbers)) [
    | inl (a, n, e) ↦ inl (a, n, e, ground arith)
    | inr (x, n, e) ↦ inr (number x, n, ground arith)
  ]

  on_orders_ok :
      (m : Action OrderError Table A) {a : A} {o : Table}
      → m s.orders ≡ (ok a, o)
      → on_orders m s ≡ (ok a, record s { orders = o })
  on_orders_ok m e = ground arith

  on_orders_err :
      (m : Action OrderError Table A) {x : OrderError} {o : Table}
      → m s.orders ≡ (err x, o)
      → on_orders m s ≡ (err (order x), record s { orders = o })
  on_orders_err m e = ground arith

module _ {L : Type 0} (env : Env) (d : Dict ℕ) (fee : ℕ) where
  -- The state after the order of a priced cart was written, with the year's counters `n`.
  abbrev pub ordered : String → Dict ℕ → Shop L → Shop L
  ordered label n s = record s {
    numbers = n;
    orders = record s.orders {
      rows =
          s.orders.rows
          ++ (
            s.orders.next_pk,
            record { columns = order_columns env d fee label; status = pending },
          )
            ∷ [];
      next_pk = s.orders.next_pk + 1;
    };
    items = s.items ++ order_items s.orders.next_pk env.prices d;
    holds =
        s.holds
        ++ record { order_id = s.orders.next_pk; checkout_id = env.checkout_id; state = active }
          ∷ [];
  }

  -- The number is the one that the counter of the year gave, which has moved on to `n`.
  abbrev pub IsNumbered : String → Dict ℕ → Shop L → Type 0
  IsNumbered label n s =
      (digits : List ℕ) × (next_order_no env.year none s.numbers ≡ (ok digits, n))
      × (label ≡ env.ascii digits)

  Created : Shop L → Result Failure ℕ × Shop L → Type 0
  Created s p =
      ((label : String) × (n : Dict ℕ) × IsNumbered label n s
        × (p ≡ (ok s.orders.next_pk, ordered label n s)))
      ⊎ ((x : Failure) × (t : Shop L) × (p ≡ (err x, t)))

  write_receipt_cases :
      (label : String) (n : Dict ℕ) (s : Shop L)
      → (write_receipt env d s.orders.next_pk (record s {
        numbers = n;
        orders = with_row (order_columns env d fee label) pending s.orders;
      })
          ≡ (ok s.orders.next_pk, ordered label n s))
        ⊎ ((x : Failure) × (t : Shop L) × (write_receipt env d s.orders.next_pk (record s {
          numbers = n;
          orders = with_row (order_columns env d fee label) pending s.orders;
        })
              ≡ (err x, t)))
  write_receipt_cases label n s = elim (Bool-cases (hold_taken env.checkout_id s.holds)) [
    | inl b ↦ inr (
      duplicate_hold,
      record s {
        numbers = n;
        orders = with_row (order_columns env d fee label) pending s.orders;
        items = s.items ++ order_items s.orders.next_pk env.prices d;
      },
      rw b refl,
    )
    | inr b ↦ inl (rw b refl)
  ]

  write_order_cases :
      (digits : List ℕ) (n : Dict ℕ) (s : Shop L)
      → next_order_no env.year none s.numbers ≡ (ok digits, n)
      → Created s (write_order env d fee digits (record s { numbers = n }))
  unfolding write_order Created initial_status order_status
  write_order_cases digits n s given = elim (insert_row_cases c pending s.orders) [
    | inr e ↦ inr (
      order integrity_error,
      record s { numbers = n },
      bind_err (on_orders (insert_row c pending)) (write_receipt env d) (record s { numbers = n })
          (on_orders_err (record s { numbers = n }) (insert_row c pending) e),
    )
    | inl e ↦ elim (write_receipt_cases (env.ascii digits) n s) [
      | inl g ↦ inl (env.ascii digits, n, (digits, given, refl), step e ∙ g)
      | inr (x, t, g) ↦ inr (x, t, step e ∙ g)
    ]
  ]
    where
      c : Columns
      c = order_columns env d fee (env.ascii digits)

      step :
          insert_row c pending s.orders ≡ (ok s.orders.next_pk, with_row c pending s.orders)
          → (on_orders (insert_row c pending) >>= write_receipt env d) (record s { numbers = n })
            ≡ write_receipt env d s.orders.next_pk
                (record s { numbers = n; orders = with_row c pending s.orders })
      step e =
          bind_ok (on_orders (insert_row c pending)) (write_receipt env d)
            (record s { numbers = n })
            (on_orders_ok (record s { numbers = n }) (insert_row c pending) e)

  create_order_cases : (s : Shop L) → Created s (create_order env d fee s)
  unfolding create_order Created
  create_order_cases s = elim (on_numbers_cases s (next_order_no env.year none)) [
    | inr (x, n, e) ↦ inr (
      x,
      record s { numbers = n },
      bind_err (on_numbers (next_order_no env.year none)) (write_order env d fee) s e,
    )
    | inl (digits, n, given, e) ↦
        subst (Created s)
          (sym (bind_ok (on_numbers (next_order_no env.year none)) (write_order env d fee) s e))
          (write_order_cases digits n s given)
  ]

  build_order_made :
      (attempt : ℕ) (s : Shop L)
      → ((label : String) × (n : Dict ℕ) × IsNumbered label n s
          × (build_order env d fee attempt s ≡ (ok s.orders.next_pk, ordered label n s)))
        ⊎ ((x : Failure) × (build_order env d fee attempt s ≡ (err x, s)))
  unfolding build_order Created
  build_order_made attempt s = go (env.fault_at attempt)
    where
      go :
          (o : Option Fault)
          → let m = elim o as (λ _. Saga L ℕ) [
            | none ↦ atomic (create_order env d fee)
            | some f ↦ raise (fault f)
          ] in
            ((label : String) × (n : Dict ℕ) × IsNumbered label n s
              × (m s ≡ (ok s.orders.next_pk, ordered label n s)))
            ⊎ ((x : Failure) × (m s ≡ (err x, s)))
      go none = elim (create_order_cases s) [
        | inl (label, n, given, e) ↦ inl (label, n, given, atomic_ok (create_order env d fee) s e)
        | inr (x, t, e) ↦ inr (x, atomic_err (create_order env d fee) s e)
      ]
      go (some f) = inr (fault f, refl)

module _ {L : Type 0} (ops : StockLedger L) (env : Env) (d : Dict ℕ) (fee : ℕ) where
  abbrev pub Made : Shop L → Result Failure ℕ × Shop L → Type 0
  Made s p =
      ((label : String) × (n : Dict ℕ) × IsNumbered env d fee label n s
        × (p ≡ (ok s.orders.next_pk, ordered env d fee label n s)))
      ⊎ ((x : Failure) × (t : Shop L) × (p ≡ (err x, t)))

  gave_up : (s : Shop L) (x : Failure) → Made s (release_and_raise ops env.checkout_id x s)
  gave_up s x =
      let (u, e) = release_and_raise_runs ops env.checkout_id x s in
      inr (x, record s { ledger = u }, e)

  pub build_each-Made : (n attempt : ℕ) (s : Shop L) → Made s (build_each ops env d fee n attempt s)
  unfolding build_each
  build_each-Made zero attempt s = elim (build_order_made env d fee attempt s) [
    | inl (label, n, given, e) ↦ inl (
      label,
      n,
      given,
      catch_ok s (build_order env d fee attempt) (after_attempt ops env.checkout_id none) e,
    )
    | inr (x, e) ↦
        subst (Made s)
          (sym (
            catch_err s (build_order env d fee attempt) (after_attempt ops env.checkout_id none) e))
          (gave_up s x)
  ]
  build_each-Made (suc n) attempt s = elim (build_order_made env d fee attempt s) [
    | inl (label, m, given, e) ↦ inl (
      label,
      m,
      given,
      catch_ok s (build_order env d fee attempt) (after_attempt ops env.checkout_id (some again)) e,
    )
    | inr (x, e) ↦
        subst (Made s)
          (sym (
            catch_err s (build_order env d fee attempt)
              (after_attempt ops env.checkout_id (some again)) e))
          (elim (after_attempt_cases ops env.checkout_id again x) [
            | inl retried ↦
                subst (λ (m : Saga L ℕ). Made s (m s)) (sym retried)
                  (build_each-Made n (attempt + 1) s)
            | inr given_up ↦ subst (λ (m : Saga L ℕ). Made s (m s)) (sym given_up) (gave_up s x)
          ])
  ]
    where
      again : Saga L ℕ
      again = build_each ops env d fee n (attempt + 1)

  -- A reservation that returns has asked the ledger once.
  pub reserve_made :
      (s : Shop L)
      → ((u : L) × (ops.reserve_lines env.checkout_id d s.ledger ≡ (ok tt, u))
          × (reserve ops env d s ≡ (ok tt, record s { ledger = u })))
        ⊎ ((x : Failure) × (t : Shop L) × (reserve ops env d s ≡ (err x, t)))
  unfolding reserve
  reserve_made s = elim (call_cases (ops.reserve_lines env.checkout_id d s.ledger)) [
    | inl (a, u, e) ↦ inl (
      u,
      e,
      catch_ok s (on_ledger (ops.reserve_lines env.checkout_id d))
          (after_reserve ops env.checkout_id)
          (on_ledger_ok s (ops.reserve_lines env.checkout_id d) e),
    )
    | inr (x, u, e) ↦
        let (y, t, r) = after_reserve_raises x (record s { ledger = u }) in
        inr (
          y,
          t,
          catch_err s (on_ledger (ops.reserve_lines env.checkout_id d))
                (after_reserve ops env.checkout_id)
                (on_ledger_err s (ops.reserve_lines env.checkout_id d) e)
              ∙ r,
        )
  ]
    where
      after_reserve_raises :
          (x : StockFailure) (s : Shop L)
          → (y : Failure) × (t : Shop L) × (after_reserve ops env.checkout_id (stock x) s
              ≡ (err y, t))
      after_reserve_raises insufficient_stock s = (stock insufficient_stock, s, refl)
      after_reserve_raises refused s = (stock refused, s, refl)
      after_reserve_raises reservation_unavailable s =
          let (u, e) =
            release_and_raise_runs ops env.checkout_id (stock reservation_unavailable) s in
          (stock reservation_unavailable, record s { ledger = u }, e)
