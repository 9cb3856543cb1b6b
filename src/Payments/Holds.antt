-- ===== src/Payments/Holds.antt =====
-- apps/payments/holds.py: the stock of an order that is paid.
pub mod Kept
pub mod Delivery
pub mod Answers
pub mod Covered
pub mod Reconcile
pub mod Sells
pub mod Abandoned
use tip_metro_drip_ecommerce.Base.{
  ℕ, zero, suc, ◌+◌, ◌-◌, String, str_append, str_eq, Bool, true, false, ◌&&◌, ◌||◌, Option, none,
  some, List, [], ◌∷◌, ◌++◌, Dict, lookup, insert, ◌==◌, if◌then◌else◌,
}
use tip_metro_drip_ecommerce.Base.Action.{
  Result, ok, err, Action, pure, raise, gets, or_raise, ◌>>=◌, ◌>>◌, modify, raise_if,
}
use tip_metro_drip_ecommerce.Orders.{
  OrderStatus, pending, paid, packed, shipped, delivered, cancelled, refunded, Row,
}
use tip_metro_drip_ecommerce.Outbox.{Message, OutboxState, enqueue}
use tip_metro_drip_ecommerce.Checkout.{quantity}
use tip_metro_drip_ecommerce.Checkout.Saga.{
  StockFailure, insufficient_stock, reservation_unavailable, refused, StockHold, StockHoldState,
  active, committed, released, unknown, OrderItem,
}
use tip_metro_drip_ecommerce.Payments.{
  Task, fulfill, commit, PaymentError, order_missing, unpaid_order, stock, StockRoom, Books, Pay,
  in_orders, on_ledger,
}

-- The clock, and `str` of a number.
pub record Env : Type 0 where
  pub now : ℕ
  pub str : ℕ → String

abbrev pub is_active : StockHoldState → Bool
is_active active = true
is_active committed = false
is_active released = false
is_active unknown = false

abbrev pub is_unknown : StockHoldState → Bool
is_unknown active = false
is_unknown committed = false
is_unknown released = false
is_unknown unknown = true

-- `state__in=[ACTIVE, COMMITTED]`
abbrev pub is_consumable : StockHoldState → Bool
is_consumable active = true
is_consumable committed = true
is_consumable released = false
is_consumable unknown = false

-- The `checkout_id`s of the order's holds to consume, which are distinct in the table.
abbrev pub consumable : ℕ → List StockHold → List String
consumable k [] = []
consumable k (h ∷ hs) =
    let rest = consumable k hs in
    if h.order_id == k && is_consumable h.state then h.checkout_id ∷ rest else rest

-- `order.stock_holds.filter(checkout_id=…, state=ACTIVE).update(state=…)`
unfoldable pub mark_active : ℕ → String → StockHoldState → List StockHold → List StockHold
mark_active k c state [] = []
mark_active k c state (h ∷ hs) =
    (if h.order_id == k && str_eq h.checkout_id c && is_active h.state
      then record h { state = state }
      else h)
    ∷ mark_active k c state hs

-- `order.stock_holds.filter(state=UNKNOWN).exists()`
unfoldable pub has_unknown : ℕ → List StockHold → Bool
has_unknown k [] = false
has_unknown k (h ∷ hs) = h.order_id == k && is_unknown h.state || has_unknown k hs

-- `_retire`
abbrev pub retire_in : ℕ → ℕ → List (Message Task) → List (Message Task)
retire_in now pk [] = []
retire_in now pk (m ∷ ms) =
    (if m.pk == pk then record m { state = OutboxState.sent; sent_at = some now } else m)
    ∷ retire_in now pk ms

-- `committed_by_variant[v] = committed_by_variant.get(v, 0) + qty`, for every entry of a result.
unfoldable pub add_all : Dict ℕ → Dict ℕ → Dict ℕ
add_all [] d = d
add_all ((v, n) ∷ r) d = add_all r (insert v (quantity v d + n) d)

module _ {L : Type 0} (ops : StockRoom L) (env : Env) where
  unfoldable pub enqueue_task : String → Task → Pay L ℕ
  unfolding enqueue
  enqueue_task topic task s = (
    ok s.next_message,
    record s {
      outbox = enqueue s.next_message topic task env.now s.outbox;
      next_message = s.next_message + 1;
    },
  )

  abbrev pub retire : ℕ → Pay L (Unit {0})
  retire pk = modify (λ s. record s { outbox = retire_in env.now pk s.outbox })

  abbrev pub mark : ℕ → String → StockHoldState → Pay L (Unit {0})
  mark k c state = modify (λ s. record s { holds = mark_active k c state s.holds })

  -- What follows the answer of the ledger to the commit of one hold group.
  pub after_commit : ℕ → String → ℕ → Dict ℕ → Result StockFailure (Dict ℕ) → Pay L (Dict ℕ)
  after_commit k c message sum (ok r) =
      retire message >> (mark k c committed >> pure (add_all r sum))
  after_commit k c message sum (err reservation_unavailable) = mark k c unknown >> pure sum
  after_commit k c message sum (err insufficient_stock) = raise (stock insufficient_stock)
  after_commit k c message sum (err refused) = raise (stock refused)

  -- A call whose exception the caller inspects itself.
  abbrev pub answered : {A : Type 0} → Action StockFailure L A → Pay L (Result StockFailure A)
  answered m s = (ok (m s.ledger).0, record s { ledger = (m s.ledger).1 })

  -- One turn of the loop of `_consume_committed_order_holds`.
  pub consume_one : ℕ → String → String → Dict ℕ → Pay L (Dict ℕ)
  unfolding after_commit enqueue_task
  consume_one k order_no c sum = do
    message ← enqueue_task "stock.commit" (commit c order_no k)
    answer ← answered (ops.commit_holds c order_no k)
    after_commit k c message sum answer

  pub consume_each : ℕ → String → List String → Dict ℕ → Pay L (Dict ℕ)
  unfolding consume_one
  consume_each k order_no [] sum = pure sum
  consume_each k order_no (c ∷ cs) sum = consume_one k order_no c sum >>= consume_each k order_no cs

  abbrev pub replacement_id : ℕ → ℕ → String
  replacement_id k v = str_append "shortfall-" (str_append (env.str k) (str_append "-" (env.str v)))

  abbrev pub replace : ℕ → String → ℕ → ℕ → Action StockFailure L (Dict ℕ)
  replace k order_no v n =
      ops.reserve_lines (replacement_id k v) ((v, n) ∷ [])
      >> ops.commit_holds (replacement_id k v) order_no k

  -- `except (InsufficientStock, ReservationUnavailable)`
  pub after_replace : ℕ → ℕ → Dict ℕ → Result StockFailure (Dict ℕ) → Pay L (Dict ℕ)
  after_replace v n sum (ok r) = pure (insert v (quantity v sum + n) sum)
  after_replace v n sum (err insufficient_stock) = raise (stock reservation_unavailable)
  after_replace v n sum (err reservation_unavailable) = raise (stock reservation_unavailable)
  after_replace v n sum (err refused) = raise (stock refused)

  pub cover_units : ℕ → String → ℕ → ℕ → Dict ℕ → Pay L (Dict ℕ)
  unfolding after_replace
  cover_units k order_no v zero sum = pure sum
  cover_units k order_no v (suc n) sum =
      answered (replace k order_no v (suc n)) >>= after_replace v (suc n) sum

  -- The loop of `_cover_shortfall`, over the items of the order.
  pub cover_each : ℕ → String → List OrderItem → Dict ℕ → Pay L (Dict ℕ)
  unfolding cover_units
  cover_each k order_no [] sum = pure sum
  cover_each k order_no (i ∷ is) sum =
      if i.order_id == k
      then (cover_units k order_no i.variant_id (i.qty - quantity i.variant_id sum) sum
          >>= cover_each k order_no is)
      else cover_each k order_no is sum

  pub cover_if_known : ℕ → String → Dict ℕ → Bool → Pay L (Dict ℕ)
  unfolding cover_each
  cover_if_known k order_no sum true = pure sum
  cover_if_known k order_no sum false =
      gets (λ s. s.items) >>= λ items. cover_each k order_no items sum

  -- `_consume_committed_order_holds`
  pub consume_holds : ℕ → String → Pay L (Dict ℕ)
  unfolding consume_each cover_if_known has_unknown
  consume_holds k order_no = do
    ids ← gets (λ s. consumable k s.holds)
    sum ← consume_each k order_no ids []
    doubt ← gets (λ s. has_unknown k s.holds)
    cover_if_known k order_no sum doubt

  -- The body of `deliver_order_stock` for an order that is paid.
  pub deliver_paid : ℕ → String → Pay L (Dict ℕ)
  unfolding consume_holds has_unknown
  deliver_paid k order_no = do
    sum ← consume_holds k order_no
    doubt ← gets (λ s. has_unknown k s.holds)
    raise_if doubt (stock reservation_unavailable)
    pure sum

  -- What it does for the status that was read under the lock. The dictionary is none where the code
  -- returns nothing.
  pub deliver_status : ℕ → String → OrderStatus → Pay L (Option (Dict ℕ))
  unfolding deliver_paid
  deliver_status k order_no cancelled = pure none
  deliver_status k order_no refunded = pure none
  deliver_status k order_no pending = raise unpaid_order
  deliver_status k order_no _ = deliver_paid k order_no >>= λ sum. pure (some sum)

  pub deliver_block : ℕ → Pay L (Option (Dict ℕ))
  unfolding deliver_status
  deliver_block k = do
    row ← or_raise order_missing (← gets (λ s. lookup k s.orders.rows))
    deliver_status k row.columns.order_no row.status

  unfoldable pub deliver_order_stock : ℕ → Pay L (Option (Dict ℕ))
  unfolding deliver_block
  deliver_order_stock k = in_orders (deliver_block k)

  -- The hook that `consume_order_holds` leaves for the commit; its failure is only logged.
  unfoldable pub attempt : ℕ → ℕ → Pay L (Unit {0})
  unfolding deliver_order_stock
  attempt k message s = elim (deliver_order_stock k s).0 [
    | ok r ↦ retire message (deliver_order_stock k s).1
    | err e ↦ (ok tt, (deliver_order_stock k s).1)
  ]

  -- `StockHold.objects.filter(checkout_id=…).update(state=COMMITTED)`
  abbrev pub commit_marks : String → List StockHold → List StockHold
  commit_marks c [] = []
  commit_marks c (h ∷ hs) =
      (if str_eq h.checkout_id c then record h { state = committed } else h) ∷ commit_marks c hs

  unfoldable pub deliver_stock_commit : String → String → ℕ → Pay L (Unit {0})
  deliver_stock_commit c order_no k =
      on_ledger (ops.commit_holds c order_no k)
      >> modify (λ s. record s { holds = commit_marks c s.holds })

  abbrev pub order_no_of : ℕ → Books L → String
  order_no_of k s = elim (lookup k s.orders.rows) [ none ↦ "" | some r ↦ r.columns.order_no ]

  -- What follows the answer for one hold of the sweep: the rows before it are `done`, those after it
  -- `hs`; the row itself is saved by its key.
  pub after_sweep :
      List StockHold
      → StockHold
      → List StockHold
      → Result StockFailure (Dict ℕ)
      → Pay L (StockHold × ℕ)
  after_sweep done h hs (ok r) =
      let h' : StockHold = record h { state = committed } in
      modify (λ s. record s { holds = done ++ h' ∷ hs }) >> pure (h', 1)
  after_sweep done h hs (err reservation_unavailable) = pure (h, 0)
  after_sweep done h hs (err insufficient_stock) = raise (stock insufficient_stock)
  after_sweep done h hs (err refused) = raise (stock refused)

  -- The sweep over the rows that are left, of which `limit` more may be taken.
  pub sweep_each : ℕ → ℕ → List StockHold → List StockHold → Pay L ℕ
  unfolding after_sweep
  sweep_each limit n done [] = pure n
  sweep_each zero n done (h ∷ hs) = pure n
  sweep_each (suc limit) n done (h ∷ hs) =
      let next = λ (l m : ℕ) (h' : StockHold). sweep_each l m (done ++ h' ∷ []) hs in
      if is_unknown h.state
      then (do
        order_no ← gets (order_no_of h.order_id)
        answer ← answered (ops.commit_holds h.checkout_id order_no h.order_id)
        (h', one) ← after_sweep done h hs answer
        next limit (n + one) h')
      else next (suc limit) n h

  unfoldable pub reconcile_unknown_holds : ℕ → Pay L ℕ
  unfolding sweep_each
  reconcile_unknown_holds limit = gets (λ s. s.holds) >>= sweep_each limit 0 []
