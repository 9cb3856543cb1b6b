-- ===== src/Payments/Simulated/Replay.antt =====
-- apps/payments/providers/simulated.py: a repeated callback (NFR-04), and what a confirmation does.
use tip_metro_drip_ecommerce.Base.{
  ℕ, ◌+◌, ◌≡◌, ◌≢◌, refl, sym, ap, ◌∙◌, subst, String, Bool, true, false, Option, none, some,
  lookup, insert, lookup-insert_self, inl, inr, ◌⊎◌, arith,
}
use tip_metro_drip_ecommerce.Base.Action.{Result, ok, err, Action, pure, or_raise, ◌>>=◌, ◌>>◌}
use tip_metro_drip_ecommerce.Base.Invert.{
  bind_ok, bind_err, bind_inv, or_raise_inv, call_cases, returned_value, returned_state,
}
use tip_metro_drip_ecommerce.Orders.{OrderError, Instance, Table}
use tip_metro_drip_ecommerce.Orders.Write.{transition_to}
use tip_metro_drip_ecommerce.Outbox.{enqueue}
use tip_metro_drip_ecommerce.Payments.{
  PaymentMethod, PaymentStatus, pending, paid, failed, refunded, Payment, PaymentError, order,
  payment_missing, fulfill, StockRoom, Books, Pay, in_orders, on_orders,
}
use tip_metro_drip_ecommerce.Payments.Holds.{Env, enqueue_task, attempt}
use tip_metro_drip_ecommerce.Payments.Holds.Kept.{IsKept, attempt-Keeps}
use tip_metro_drip_ecommerce.Payments.Simulated.{
  is_paid, payment_method, confirmed_row, transition, settle_payment, confirm_payment,
  confirm_block, after_confirm, confirm_order_paid,
}

module _ {L A : Type 0} where
  -- A transaction that returned is its block.
  pub in_orders_inv :
      (m : Pay L A) (s : Books L) {a : A} {t : Books L}
      → in_orders m s ≡ (ok a, t)
      → m s ≡ (ok a, t)
  in_orders_inv m s {a} {t} e = from (m s) e
    where
      from :
          (p : Result PaymentError A × Books L)
          → ◌≡◌ {A = Result PaymentError A × Books L}
              (elim p.0 as (λ _. Result PaymentError A × Books L) [
                | ok x ↦ (ok x, p.1)
                | err x ↦ (err x, record s { ledger = p.1.ledger })
              ])
              (ok a, t)
          → p ≡ (ok a, t)
      from (ok x, u) h = h
      from (err x, u) h = cc

  pub in_orders_ok :
      (m : Pay L A) (s : Books L) {a : A} {t : Books L}
      → m s ≡ (ok a, t)
      → in_orders m s ≡ (ok a, t)
  in_orders_ok m s e = ground arith

module _ {L : Type 0} (s : Books L) where
  on_orders_ok :
      {A : Type 0} (m : Action OrderError Table A) {a : A} {u : Table}
      → m s.orders ≡ (ok a, u)
      → on_orders (m >> pure tt) s ≡ (ok tt, record s { orders = u })
  on_orders_ok m e = ground arith

  on_orders_err :
      {A : Type 0} (m : Action OrderError Table A) {x : OrderError} {u : Table}
      → m s.orders ≡ (err x, u)
      → on_orders (m >> pure tt) s ≡ (err (order x), record s { orders = u })
  on_orders_err m e = ground arith

module _ {L : Type 0} (ops : StockRoom L) (env : Env) where
  -- The tables just before the order changes its status.
  abbrev pub recorded : Instance → String → Payment → Books L → Books L
  recorded o method p s = record s {
    payments = insert o.pk (confirmed_row env.now (payment_method method) p) s.payments;
    outbox = enqueue s.next_message "order.fulfill_stock" (fulfill o.pk) env.now s.outbox;
    next_message = s.next_message + 1;
  }

  pub settle_payment_cases :
      (o : Instance) (method : String) (p : Payment) (s : Books L)
      → ((a : Instance) × (u : Table) × (transition_to o "paid" s.orders ≡ (ok a, u))
          × (settle_payment ops env o method p s
              ≡ (ok s.next_message, record (recorded o method p s) { orders = u })))
        ⊎ ((x : OrderError) × (u : Table) × (transition_to o "paid" s.orders ≡ (err x, u))
            × (settle_payment ops env o method p s
                ≡ (err (order x), record (recorded o method p s) { orders = u })))
  unfolding settle_payment enqueue_task
  settle_payment_cases o method p s = elim (call_cases (transition_to o "paid" s.orders)) [
    | inl (a, u, e) ↦ inl (
      a,
      u,
      e,
      bind_ok (transition o "paid") (λ _. pure s.next_message) (recorded o method p s)
          (on_orders_ok (recorded o method p s) (transition_to o "paid") e),
    )
    | inr (x, u, e) ↦ inr (
      x,
      u,
      e,
      bind_err (transition o "paid") (λ _. pure s.next_message) (recorded o method p s)
          (on_orders_err (recorded o method p s) (transition_to o "paid") e),
    )
  ]

  -- The payment of the order is found, and is paid.
  abbrev pub IsPaid : ℕ → Books L → Type 0
  IsPaid k t = (p : Payment) × (lookup k t.payments ≡ some p) × (is_paid p.status ≡ true)

  is_paid-confirmed_row :
      (now : ℕ) (m : Option PaymentMethod) (p : Payment)
      → is_paid (confirmed_row now m p).status ≡ true
  is_paid-confirmed_row now none p = refl
  is_paid-confirmed_row now (some m) p = refl

  recorded-IsPaid :
      (o : Instance) (method : String) (p : Payment) (s : Books L)
      → IsPaid o.pk (recorded o method p s)
  recorded-IsPaid o method p s = (
    confirmed_row env.now (payment_method method) p,
    lookup-insert_self o.pk (confirmed_row env.now (payment_method method) p) s.payments,
    is_paid-confirmed_row env.now (payment_method method) p,
  )

  -- What a block that returned has done: nothing, for a payment that is paid already, or all of it.
  abbrev pub Confirmed : Instance → String → Books L → Option ℕ → Books L → Type 0
  Confirmed o method s r t =
      ((r ≡ none) × (t ≡ s) × IsPaid o.pk s)
      ⊎ ((p : Payment) × (a : Instance) × (u : Table) × (lookup o.pk s.payments ≡ some p)
          × (is_paid p.status ≡ false)
          × (transition_to o "paid" s.orders ≡ (ok a, u))
          × (r ≡ some s.next_message)
          × (t ≡ record (recorded o method p s) { orders = u }))

  settle_inv :
      (o : Instance) (method : String) (p : Payment) (s : Books L) {r : Option ℕ} {t : Books L}
      → lookup o.pk s.payments ≡ some p
      → is_paid p.status ≡ false
      → (settle_payment ops env o method p >>= λ message. pure (some message)) s ≡ (ok r, t)
      → Confirmed o method s r t
  settle_inv o method p s {r} {t} at off e = elim (settle_payment_cases o method p s) [
    | inl (a, u, moved, done) ↦
        let e' =
          sym (bind_ok (settle_payment ops env o method p) (λ m. pure (some m)) s done) ∙ e in
        inr (p, a, u, at, off, moved, sym (returned_value e'), sym (returned_state e'))
    | inr (x, u, stuck, raised) ↦ absurd (
        apart
          (sym (bind_err (settle_payment ops env o method p) (λ m. pure (some m)) s raised) ∙ e))
  ]
    where
      apart :
          {x : PaymentError} {u : Books L}
          → ◌≢◌ {A = Result PaymentError (Option ℕ) × Books L} (err x, u) (ok r, t)
      apart q = cc

  confirm_payment_inv :
      (o : Instance) (method : String) (p : Payment) (s : Books L) {r : Option ℕ} {t : Books L}
      → lookup o.pk s.payments ≡ some p
      → confirm_payment ops env o method p p.status s ≡ (ok r, t)
      → Confirmed o method s r t
  unfolding confirm_payment
  confirm_payment_inv o method p s {r} {t} at e = from p.status refl e
    where
      from :
          (st : PaymentStatus)
          → p.status ≡ st
          → confirm_payment ops env o method p st s ≡ (ok r, t)
          → Confirmed o method s r t
      from paid st h = inl (sym (returned_value h), sym (returned_state h), (p, at, ap is_paid st))
      from pending st h = settle_inv o method p s at (ap is_paid st) h
      from failed st h = settle_inv o method p s at (ap is_paid st) h
      from refunded st h = settle_inv o method p s at (ap is_paid st) h

  pub confirm_block_inv :
      (o : Instance) (method : String) (s : Books L) {r : Option ℕ} {t : Books L}
      → confirm_block ops env o method s ≡ (ok r, t)
      → Confirmed o method s r t
  unfolding confirm_block
  confirm_block_inv o method s e =
      let (p, at, h) =
        or_raise_inv (lookup o.pk s.payments) payment_missing
          (λ (p : Payment). confirm_payment ops env o method p p.status) s e in
      confirm_payment_inv o method p s at h

  Confirmed-IsPaid :
      (o : Instance) (method : String) (s : Books L) (r : Option ℕ) (t : Books L)
      → Confirmed o method s r t
      → IsPaid o.pk t
  Confirmed-IsPaid o method s r t (inl (e, same, h)) = subst (IsPaid o.pk) (sym same) h
  Confirmed-IsPaid o method s r t (inr (p, a, u, at, off, moved, e, same)) =
      subst (IsPaid o.pk) (sym same) (recorded-IsPaid o method p s)

  IsPaid-IsKept : (k j : ℕ) → IsKept k (IsPaid j)
  IsPaid-IsKept k j = record {
    ledger = λ u s h. h;
    outbox = λ o n s h. h;
    holds = λ c state s off h. h;
  }

  after_confirm-IsPaid :
      (k : ℕ) (r : Option ℕ) (s : Books L) {b : Bool} {t : Books L}
      → IsPaid k s
      → after_confirm ops env k r s ≡ (ok b, t)
      → IsPaid k t
  unfolding after_confirm
  after_confirm-IsPaid k none s h e = subst (IsPaid k) (returned_state e) h
  after_confirm-IsPaid k (some message) s h e =
      let (a, u, tried, rest) = bind_inv (attempt ops env k message) (λ _. pure true) s e in
      subst (IsPaid k)
        (ap (λ (p : Result PaymentError (Unit {0}) × Books L). p.1) tried ∙ returned_state rest)
        (attempt-Keeps (IsPaid-IsKept k k) ops env message s h)

  is_paid_inv : (st : PaymentStatus) → is_paid st ≡ true → st ≡ paid
  is_paid_inv paid e = refl
  is_paid_inv pending e = cc
  is_paid_inv failed e = cc
  is_paid_inv refunded e = cc

  paid_already :
      (o : Instance) (method : String) (s : Books L)
      → IsPaid o.pk s
      → confirm_order_paid ops env o method s ≡ (ok false, s)
  unfolding confirm_order_paid confirm_block confirm_payment after_confirm
  paid_already o method s (p, at, on) =
      let found : confirm_block ops env o method s ≡ (ok none, s) =
        ap
          (λ (x : Option Payment).
            (or_raise payment_missing x >>= λ p. confirm_payment ops env o method p p.status) s)
          at
        ∙ ap (λ (st : PaymentStatus). confirm_payment ops env o method p st s)
            (is_paid_inv p.status on) in
      bind_ok (in_orders (confirm_block ops env o method)) (after_confirm ops env o.pk) s
        (in_orders_ok (confirm_block ops env o method) s found)

  -- A confirmation that returned, whether it was the first one or a repetition: every later callback
  -- for the order, with any method, returns False and writes nothing at all, no payment, no order, no
  -- instruction and nothing in the stock ledger.
  pub confirm_order_paid_replay :
      (o later : Instance) (method method' : String) (s : Books L) {b : Bool} {t : Books L}
      → later.pk ≡ o.pk
      → confirm_order_paid ops env o method s ≡ (ok b, t)
      → confirm_order_paid ops env later method' t ≡ (ok false, t)
  unfolding confirm_order_paid
  confirm_order_paid_replay o later method method' s {b} {t} same e =
      let (r, u, confirmed, rest) =
        bind_inv (in_orders (confirm_block ops env o method)) (after_confirm ops env o.pk) s e in
      let block =
        confirm_block_inv o method s (in_orders_inv (confirm_block ops env o method) s confirmed) in
      paid_already later method' t (
        subst (λ k. IsPaid k t) (sym same)
          (after_confirm-IsPaid o.pk r u (Confirmed-IsPaid o method s r u block) rest))
