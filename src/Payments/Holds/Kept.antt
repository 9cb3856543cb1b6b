-- ===== src/Payments/Holds/Kept.antt =====
-- apps/payments/holds.py: what the consumption of an order's holds writes. A property of the tables
-- that its kinds of write keep is kept by the whole of it.
use tip_metro_drip_ecommerce.Base.{
  ℕ, zero, suc, ◌-◌, String, Bool, true, false, ◌≡◌, refl, Option, some, List, [], ◌∷◌, Dict,
  lookup, ◌==◌, Bool-cases, inl, inr,
}
use tip_metro_drip_ecommerce.Base.Action.{Result, ok, err, pure, gets, ◌>>=◌, ◌>>◌, raise_if}
use tip_metro_drip_ecommerce.Base.Keeps.{Keeps, bind-Keeps, or_raise-Keeps}
use tip_metro_drip_ecommerce.Orders.{
  OrderStatus, pending, paid, packed, shipped, delivered, cancelled, refunded, Row,
}
use tip_metro_drip_ecommerce.Outbox.{Message}
use tip_metro_drip_ecommerce.Checkout.{quantity}
use tip_metro_drip_ecommerce.Checkout.Saga.{
  StockFailure, insufficient_stock, reservation_unavailable, refused, StockHoldState, committed,
  unknown, OrderItem,
}
use tip_metro_drip_ecommerce.Payments.{Task, PaymentError, order_missing, stock, StockRoom, Books}
use tip_metro_drip_ecommerce.Payments.Holds.{
  Env, is_active, consumable, mark_active, has_unknown, enqueue_task, retire, after_commit,
  consume_one, consume_each, replace, after_replace, cover_units, cover_each, cover_if_known,
  consume_holds, deliver_paid, deliver_status, deliver_block, deliver_order_stock, attempt,
}

-- The kinds of write for the order of the key `k`.
pub record IsKept {L : Type 0} (k : ℕ) (P : Books L → Type 0) : Type 0 where
  pub ledger : (u : L) (s : Books L) → P s → P (record s { ledger = u })
  pub outbox :
      (o : List (Message Task)) (n : ℕ) (s : Books L)
      → P s
      → P (record s { outbox = o; next_message = n })
  pub holds :
      (c : String) (state : StockHoldState) (s : Books L)
      → is_active state ≡ false
      → P s
      → P (record s { holds = mark_active k c state s.holds })

module _ {L : Type 0} {k : ℕ} {P : Books L → Type 0} (kept : IsKept k P) (ops : StockRoom L)
    (env : Env) where
  after_commit-Keeps :
      (c : String) (message : ℕ) (sum : Dict ℕ) (r : Result StockFailure (Dict ℕ))
      → Keeps P (after_commit ops env k c message sum r)
  unfolding after_commit
  after_commit-Keeps c message sum (ok r) s h =
      kept.holds c committed _ refl (kept.outbox _ s.next_message s h)
  after_commit-Keeps c message sum (err reservation_unavailable) s h = kept.holds c unknown s refl h
  after_commit-Keeps c message sum (err insufficient_stock) s h = h
  after_commit-Keeps c message sum (err refused) s h = h

  consume_one-Keeps :
      (order_no c : String) (sum : Dict ℕ) → Keeps P (consume_one ops env k order_no c sum)
  unfolding consume_one enqueue_task
  consume_one-Keeps order_no c sum s h =
      after_commit-Keeps c s.next_message sum (ops.commit_holds c order_no k s.ledger).0 _
        (kept.ledger _ _ (kept.outbox _ _ s h))

  pub consume_each-Keeps :
      (order_no : String) (cs : List String) (sum : Dict ℕ)
      → Keeps P (consume_each ops env k order_no cs sum)
  unfolding consume_each
  consume_each-Keeps order_no [] sum s h = h
  consume_each-Keeps order_no (c ∷ cs) sum s h =
      bind-Keeps P (consume_one ops env k order_no c sum) (consume_each ops env k order_no cs)
        (consume_one-Keeps order_no c sum) (consume_each-Keeps order_no cs) s h

  after_replace-Keeps :
      (v n : ℕ) (sum : Dict ℕ) (r : Result StockFailure (Dict ℕ))
      → Keeps P (after_replace ops env v n sum r)
  unfolding after_replace
  after_replace-Keeps v n sum (ok r) s h = h
  after_replace-Keeps v n sum (err insufficient_stock) s h = h
  after_replace-Keeps v n sum (err reservation_unavailable) s h = h
  after_replace-Keeps v n sum (err refused) s h = h

  cover_units-Keeps :
      (order_no : String) (v n : ℕ) (sum : Dict ℕ)
      → Keeps P (cover_units ops env k order_no v n sum)
  unfolding cover_units
  cover_units-Keeps order_no v zero sum s h = h
  cover_units-Keeps order_no v (suc n) sum s h =
      after_replace-Keeps v (suc n) sum (replace ops env k order_no v (suc n) s.ledger).0 _
        (kept.ledger _ s h)

  pub cover_each-Keeps :
      (order_no : String) (is : List OrderItem) (sum : Dict ℕ)
      → Keeps P (cover_each ops env k order_no is sum)
  unfolding cover_each
  cover_each-Keeps order_no [] sum s h = h
  cover_each-Keeps order_no (i ∷ is) sum s h = elim (Bool-cases (i.order_id == k)) [
    | inl mine ↦ rw mine (
        bind-Keeps P
          (cover_units ops env k order_no i.variant_id (i.qty - quantity i.variant_id sum) sum)
          (cover_each ops env k order_no is)
          (cover_units-Keeps order_no i.variant_id (i.qty - quantity i.variant_id sum) sum)
          (cover_each-Keeps order_no is) s h)
    | inr other ↦ rw other (cover_each-Keeps order_no is sum s h)
  ]

  cover_if_known-Keeps :
      (order_no : String) (sum : Dict ℕ) (doubt : Bool)
      → Keeps P (cover_if_known ops env k order_no sum doubt)
  unfolding cover_if_known
  cover_if_known-Keeps order_no sum true s h = h
  cover_if_known-Keeps order_no sum false s h = cover_each-Keeps order_no s.items sum s h

  pub consume_holds-Keeps : (order_no : String) → Keeps P (consume_holds ops env k order_no)
  unfolding consume_holds
  consume_holds-Keeps order_no s h =
      bind-Keeps P (consume_each ops env k order_no (consumable k s.holds) [])
        (λ sum. gets (λ s. has_unknown k s.holds) >>= cover_if_known ops env k order_no sum)
        (consume_each-Keeps order_no (consumable k s.holds) [])
        (λ sum t. cover_if_known-Keeps order_no sum (has_unknown k t.holds) t) s h

  doubtful :
      (doubt : Bool) (sum : Dict ℕ)
      → Keeps P (raise_if {S = Books L} doubt (stock reservation_unavailable) >> pure sum)
  doubtful true sum s h = h
  doubtful false sum s h = h

  deliver_paid-Keeps : (order_no : String) → Keeps P (deliver_paid ops env k order_no)
  unfolding deliver_paid
  deliver_paid-Keeps order_no =
      bind-Keeps P (consume_holds ops env k order_no)
        (λ sum. gets (λ s. has_unknown k s.holds) >>= λ doubt.
          raise_if doubt (stock reservation_unavailable) >> pure sum)
        (consume_holds-Keeps order_no) (λ sum s h. doubtful (has_unknown k s.holds) sum s h)

  returned-Keeps :
      (order_no : String) → Keeps P (deliver_paid ops env k order_no >>= λ sum. pure (some sum))
  returned-Keeps order_no =
      bind-Keeps P (deliver_paid ops env k order_no) (λ sum. pure (some sum))
        (deliver_paid-Keeps order_no) (λ sum s h. h)

  deliver_status-Keeps :
      (order_no : String) (status : OrderStatus)
      → Keeps P (deliver_status ops env k order_no status)
  unfolding deliver_status
  deliver_status-Keeps order_no cancelled = λ s h. h
  deliver_status-Keeps order_no refunded = λ s h. h
  deliver_status-Keeps order_no pending = λ s h. h
  deliver_status-Keeps order_no paid = returned-Keeps order_no
  deliver_status-Keeps order_no packed = returned-Keeps order_no
  deliver_status-Keeps order_no shipped = returned-Keeps order_no
  deliver_status-Keeps order_no delivered = returned-Keeps order_no

  pub deliver_block-Keeps : Keeps P (deliver_block ops env k)
  unfolding deliver_block
  deliver_block-Keeps s h =
      or_raise-Keeps P (lookup k s.orders.rows) order_missing
        (λ (row : Row). deliver_status ops env k row.columns.order_no row.status) s h
        (λ row _. deliver_status-Keeps row.columns.order_no row.status s h)

  -- A transaction of Orders that raises leaves the tables, and the ledger as it is.
  pub deliver_order_stock-Keeps : Keeps P (deliver_order_stock ops env k)
  unfolding deliver_order_stock
  deliver_order_stock-Keeps s h = from (deliver_block ops env k s) (deliver_block-Keeps s h)
    where
      from :
          (p : Result PaymentError (Option (Dict ℕ)) × Books L)
          → P p.1
          → P
              (elim p.0 as (λ _. Result PaymentError (Option (Dict ℕ)) × Books L) [
                | ok a ↦ (ok a, p.1)
                | err e ↦ (err e, record s { ledger = p.1.ledger })
              ]).1
      from (ok a, t) q = q
      from (err e, t) q = kept.ledger t.ledger s h

  pub attempt-Keeps : (message : ℕ) → Keeps P (attempt ops env k message)
  unfolding attempt
  attempt-Keeps message s h = from (deliver_order_stock ops env k s) (deliver_order_stock-Keeps s h)
    where
      from :
          (p : Result PaymentError (Option (Dict ℕ)) × Books L)
          → P p.1
          → P
              (elim p.0 as (λ _. Result PaymentError (Unit {0}) × Books L) [
                | ok r ↦ retire ops env message p.1
                | err e ↦ (ok tt, p.1)
              ]).1
      from (ok r, t) q = kept.outbox _ t.next_message t q
      from (err e, t) q = q
