-- ===== src/Payments/Simulated/Confirmed.antt =====
-- apps/payments/providers/simulated.py: which orders a confirmation pays, and which it refuses.
use tip_metro_drip_ecommerce.Base.{
  ℕ, ◌≡◌, ◌≢◌, refl, ap, ◌∙◌, subst, String, true, false, Option, none, some, Dict, lookup, insert,
  inl, inr, arith,
}
use tip_metro_drip_ecommerce.Base.Action.{Result, ok, err, pure, or_raise, ◌>>=◌}
use tip_metro_drip_ecommerce.Base.Invert.{bind_err, bind_inv, returned_state}
use tip_metro_drip_ecommerce.Orders.{
  OrderStatus, pending, paid, packed, shipped, delivered, cancelled, refunded, order_status,
  allowed, Row, Instance, Table,
}
use tip_metro_drip_ecommerce.Orders.Write.{transition_to}
use tip_metro_drip_ecommerce.Orders.Write.Lifecycle.{status_at}
use tip_metro_drip_ecommerce.Orders.Write.Moves.{transition_to_inv, moved}
use tip_metro_drip_ecommerce.Payments.{
  PaymentStatus, Payment, PaymentError, order, payment_missing, StockRoom, Books, Pay, in_orders,
}
use tip_metro_drip_ecommerce.Payments.Holds.{Env, attempt}
use tip_metro_drip_ecommerce.Payments.Holds.Kept.{IsKept, attempt-Keeps}
use tip_metro_drip_ecommerce.Payments.Simulated.{
  is_paid, settle_payment, confirm_payment, confirm_block, after_confirm, confirm_order_paid,
  payment_method, confirmed_row,
}
use tip_metro_drip_ecommerce.Payments.Simulated.Replay.{
  in_orders_inv, settle_payment_cases, confirm_block_inv, Confirmed,
}

only_pending : (a : OrderStatus) → allowed a paid ≡ true → a ≡ pending
unfolding allowed
only_pending pending e = refl
only_pending paid e = cc
only_pending packed e = cc
only_pending shipped e = cc
only_pending delivered e = cc
only_pending cancelled e = cc
only_pending refunded e = cc

abbrev status_of : Option Row → Option OrderStatus
status_of x = elim x [ none ↦ none | some r ↦ some r.status ]

-- The order was Pending, and is Paid; every other order is as it was.
abbrev pub Paid : ℕ → Table → Table → Type 0
Paid k t u =
    (row : Row) × (lookup k t.rows ≡ some row) × (row.status ≡ pending) × (u ≡ moved k row paid t)

-- An order moves to Paid from Pending only.
to_paid :
    (o : Instance) (t : Table) {a : Instance} {u : Table}
    → transition_to o "paid" t ≡ (ok a, u)
    → Paid o.pk t u
unfolding order_status
to_paid o t {a} {u} e =
    let (target, row, named, found, legal, new) = transition_to_inv o "paid" t e in
    from target row named found legal new
  where
    from :
        (target : OrderStatus) (row : Row)
        → order_status "paid" ≡ some target
        → lookup o.pk t.rows ≡ some row
        → allowed row.status target ≡ true
        → u ≡ moved o.pk row target t
        → Paid o.pk t u
    from paid row named found legal new = (row, found, only_pending row.status legal, new)
    from pending row named found legal new = cc
    from packed row named found legal new = cc
    from shipped row named found legal new = cc
    from delivered row named found legal new = cc
    from cancelled row named found legal new = cc
    from refunded row named found legal new = cc

module _ {L : Type 0} (ops : StockRoom L) (env : Env) where
  abbrev Same : Table → Dict Payment → Books L → Type 0
  Same u p t = (t.orders ≡ u) × (t.payments ≡ p)

  Same-IsKept : (k : ℕ) (u : Table) (p : Dict Payment) → IsKept k (Same u p)
  Same-IsKept k u p = record {
    ledger = λ u s h. h;
    outbox = λ o n s h. h;
    holds = λ c state s off h. h;
  }

  abbrev PaidNow : Instance → String → Books L → Books L → Type 0
  PaidNow o method s t =
      Paid o.pk s.orders t.orders
      × ((p : Payment) × (lookup o.pk s.payments ≡ some p)
          × (is_paid p.status ≡ false)
          × (t.payments ≡ insert o.pk (confirmed_row env.now (payment_method method) p) s.payments))

  paid_now :
      (o : Instance) (method : String) (s : Books L) (r : Option ℕ) (u : Books L) {t : Books L}
      → Confirmed ops env o method s r u
      → after_confirm ops env o.pk r u ≡ (ok true, t)
      → PaidNow o method s t
  unfolding after_confirm
  paid_now o method s none u (inl (z, same, p)) e = cc
  paid_now o method s (some m) u (inl (z, same, p)) e = cc
  paid_now o method s none u (inr (p, a, w, at, off, move, z, same)) e = cc
  paid_now o method s (some m) u {t} (inr (p, a, w, at, off, move, z, same)) e =
      let (x, v, tried, rest) = bind_inv (attempt ops env o.pk m) (λ _. pure true) u e in
      let paid_row = insert o.pk (confirmed_row env.now (payment_method method) p) s.payments in
      let kept : Same w paid_row (attempt ops env o.pk m u).1 =
        attempt-Keeps (Same-IsKept o.pk w paid_row) ops env m u
          (ap (λ (b : Books L). b.orders) same, ap (λ (b : Books L). b.payments) same) in
      let end : (attempt ops env o.pk m u).1 ≡ t =
        ap (λ (q : Result PaymentError (Unit {0}) × Books L). q.1) tried ∙ returned_state rest in
      let (orders, payments) = subst (Same w paid_row) end kept in
      let (row, found, was, new) = to_paid o s.orders move in
      ((row, found, was, orders ∙ new), (p, at, off, payments))

  -- A confirmation that returns True has found a payment that was not paid yet and an order that was
  -- Pending. It leaves that payment paid, with its amount and reference as they were, and every other
  -- payment alone; and it leaves that order Paid, with one push for it, and every other order alone,
  -- whatever becomes of the stock after the transaction.
  pub confirm_order_paid_lem :
      (o : Instance) (method : String) (s : Books L) {t : Books L}
      → confirm_order_paid ops env o method s ≡ (ok true, t)
      → ((row : Row) × (lookup o.pk s.orders.rows ≡ some row)
          × (row.status ≡ pending)
          × (t.orders ≡ moved o.pk row paid s.orders))
        × ((p : Payment) × (lookup o.pk s.payments ≡ some p)
            × (is_paid p.status ≡ false)
            × (t.payments
                ≡ insert o.pk (confirmed_row env.now (payment_method method) p) s.payments))
  unfolding confirm_order_paid
  confirm_order_paid_lem o method s {t} e =
      let (r, u, confirmed, rest) =
        bind_inv (in_orders (confirm_block ops env o method)) (after_confirm ops env o.pk) s e in
      paid_now o method s r u
        (confirm_block_inv ops env o method s
          (in_orders_inv (confirm_block ops env o method) s confirmed))
        rest

  in_orders_err :
      {A : Type 0} (m : Pay L A) (s : Books L) {x : PaymentError} {u : Books L}
      → m s ≡ (err x, u)
      → in_orders m s ≡ (err x, record s { ledger = u.ledger })
  in_orders_err m s e = ground arith

  settle_refused :
      (o : Instance) (method : String) (p : Payment) (s : Books L)
      → status_at o.pk s.orders ≢ some pending
      → (x : PaymentError) × (u : Books L) × (u.ledger ≡ s.ledger)
        × ((settle_payment ops env o method p >>= λ m. pure (some m)) s ≡ (err x, u))
  settle_refused o method p s other = elim (settle_payment_cases ops env o method p s) [
    | inl (a, u, move, done) ↦
        let (row, found, was, new) = to_paid o s.orders move in
        absurd (other (ap status_of found ∙ ap (λ (a : OrderStatus). some a) was))
    | inr (x, u, stuck, raised) ↦ (
      order x,
      _,
      refl,
      bind_err (settle_payment ops env o method p) (λ m. pure (some m)) s raised,
    )
  ]

  confirm_payment_refused :
      (o : Instance) (method : String) (p : Payment) (st : PaymentStatus) (s : Books L)
      → is_paid st ≡ false
      → status_at o.pk s.orders ≢ some pending
      → (x : PaymentError) × (u : Books L) × (u.ledger ≡ s.ledger)
        × (confirm_payment ops env o method p st s ≡ (err x, u))
  unfolding confirm_payment
  confirm_payment_refused o method p PaymentStatus.paid s off other = cc
  confirm_payment_refused o method p PaymentStatus.pending s off other =
      settle_refused o method p s other
  confirm_payment_refused o method p PaymentStatus.failed s off other =
      settle_refused o method p s other
  confirm_payment_refused o method p PaymentStatus.refunded s off other =
      settle_refused o method p s other

  -- A callback for a payment that is not paid, whose order is not Pending, say because the payment
  -- failed and the order was cancelled: the confirmation raises and leaves every table as it was.
  pub confirm_order_paid_refused :
      (o : Instance) (method : String) (s : Books L) {p : Payment}
      → lookup o.pk s.payments ≡ some p
      → is_paid p.status ≡ false
      → status_at o.pk s.orders ≢ some pending
      → (x : PaymentError) × (confirm_order_paid ops env o method s ≡ (err x, s))
  unfolding confirm_order_paid confirm_block
  confirm_order_paid_refused o method s {p} at off other =
      let (x, u, still, raised) = confirm_payment_refused o method p p.status s off other in
      let block : confirm_block ops env o method s ≡ (err x, u) =
        ap
          (λ (y : Option Payment).
            (or_raise payment_missing y >>= λ q. confirm_payment ops env o method q q.status) s)
          at
        ∙ raised in
      (
        x,
        bind_err (in_orders (confirm_block ops env o method)) (after_confirm ops env o.pk) s (
            in_orders_err (confirm_block ops env o method) s block
            ∙ ap (λ (l : L). (err x, record s { ledger = l })) still),
      )
