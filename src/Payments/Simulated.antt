-- ===== src/Payments/Simulated.antt =====
-- apps/payments/providers/simulated.py: the four scenarios of a payment. `confirm_order_paid` of the
-- PayMongo provider has the same body.
pub mod Replay
pub mod Confirmed
use tip_metro_drip_ecommerce.Base.{
  ℕ, String, str_append, str_eq, Bool, true, false, not, Option, none, some, Dict, lookup, insert,
  if◌then◌else◌,
}
use tip_metro_drip_ecommerce.Base.Action.{
  Result, ok, err, pure, gets, or_raise, ◌>>=◌, ◌>>◌, modify, raise_if,
}
use tip_metro_drip_ecommerce.Orders.{Columns, Instance}
use tip_metro_drip_ecommerce.Orders.Write.{transition_to}
use tip_metro_drip_ecommerce.Payments.{
  PaymentMethod, card, gcash, maya, PaymentStatus, pending, paid, failed, refunded, Payment,
  fulfill, payment_missing, StockRoom, Books, Pay, in_orders, on_orders,
}
use tip_metro_drip_ecommerce.Payments.Holds.{Env, enqueue_task, attempt}

abbrev pub is_paid : PaymentStatus → Bool
is_paid pending = false
is_paid paid = true
is_paid failed = false
is_paid refunded = false

abbrev pub is_pending : PaymentStatus → Bool
is_pending pending = true
is_pending paid = false
is_pending failed = false
is_pending refunded = false

-- `method in PaymentMethod.values`
unfoldable pub payment_method : String → Option PaymentMethod
payment_method s =
    if str_eq s "card"
    then some card
    else if str_eq s "gcash"
    then some gcash
    else if str_eq s "maya"
    then some maya
    else none

abbrev pub new_payment : String → ℕ → Payment
new_payment order_no total = record {
  provider_ref = some (str_append "sim_session_" order_no);
  method = card;
  status = pending;
  amount = total;
  paid_at = none;
}

-- The row that a confirmation saves. A method that is no `PaymentMethod` is left alone.
abbrev pub confirmed_row : ℕ → Option PaymentMethod → Payment → Payment
confirmed_row now none p = record p { status = paid; paid_at = some now }
confirmed_row now (some m) p = record p { method = m; status = paid; paid_at = some now }

module _ {L : Type 0} where
  abbrev pub get_payment : ℕ → Pay L Payment
  get_payment k = do or_raise payment_missing (← gets (λ s. lookup k s.payments))

  abbrev pub save_payment : ℕ → Payment → Pay L (Unit {0})
  save_payment k p = modify (λ s. record s { payments = insert k p s.payments })

  -- `Payment.objects.get_or_create(order=…)` of `create_checkout_session`, and the reference.
  unfoldable pub create_checkout_session : ℕ → Columns → Pay L String
  create_checkout_session k c s = (
    ok (str_append "sim_session_" c.order_no),
    elim (lookup k s.payments) [
      | none ↦ record s { payments = insert k (new_payment c.order_no c.total) s.payments }
      | some p ↦ s
    ],
  )

  -- `order.transition_to(…)` of an order that the caller has loaded.
  abbrev pub transition : Instance → String → Pay L (Unit {0})
  transition o status = on_orders (transition_to o status >> pure tt)

  module _ (ops : StockRoom L) (env : Env) where
    -- What a confirmation writes once the payment is locked: the row, the instruction for the stock,
    -- and the status of the order.
    pub settle_payment : Instance → String → Payment → Pay L ℕ
    unfolding enqueue_task payment_method
    settle_payment o method p = do
      save_payment o.pk (confirmed_row env.now (payment_method method) p)
      message ← enqueue_task ops env "order.fulfill_stock" (fulfill o.pk)
      transition o "paid"
      pure message

    -- By the status of the payment. The result is the key of the instruction for the hook.
    pub confirm_payment : Instance → String → Payment → PaymentStatus → Pay L (Option ℕ)
    unfolding settle_payment
    confirm_payment o method p paid = pure none
    confirm_payment o method p _ = settle_payment o method p >>= λ message. pure (some message)

    pub confirm_block : Instance → String → Pay L (Option ℕ)
    unfolding confirm_payment
    confirm_block o method = get_payment o.pk >>= λ p. confirm_payment o method p p.status

    -- `transaction.on_commit`: the hook runs once the transaction has committed.
    pub after_confirm : ℕ → Option ℕ → Pay L Bool
    unfolding attempt
    after_confirm k none = pure false
    after_confirm k (some message) = attempt ops env k message >> pure true

    unfoldable pub confirm_order_paid : Instance → String → Pay L Bool
    unfolding confirm_block after_confirm
    confirm_order_paid o method = in_orders (confirm_block o method) >>= after_confirm o.pk

  pub fail_payment : Instance → Payment → PaymentStatus → Pay L Bool
  fail_payment o p pending = do
    save_payment o.pk (record p { status = failed })
    transition o "cancelled"
    pure true
  fail_payment o p _ = pure false

  -- `simulate_failure` and `simulate_cancellation`, whose bodies are the same.
  unfoldable pub simulate_failure : Instance → Pay L Bool
  unfolding fail_payment
  simulate_failure o = in_orders (get_payment o.pk >>= λ p. fail_payment o p p.status)
