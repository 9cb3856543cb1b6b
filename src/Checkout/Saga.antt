-- ===== src/Checkout/Saga.antt =====
-- apps/orders/checkout.py: `place_order`, from the priced cart to the payment session, with the
-- compensations. The stock ledger is one of the providers of apps/inventory, seen through its calls;
-- the payment provider and the database's faults are an `Env`.
pub mod Steps
pub mod Compensation
pub mod Building
pub mod Placed
pub mod Receipts
use tip_metro_drip_ecommerce.Base.{
  ◌==◌, ℕ, zero, suc, ◌+◌, ◌*◌, String, str_eq, Bool, true, false, not, ◌&&◌, ◌||◌, Option, none,
  some, List, [], ◌∷◌, ◌++◌, Dict, lookup, if◌then◌else◌,
}
use tip_metro_drip_ecommerce.Base.Action.{
  Result, ok, err, Action, pure, raise, gets, or_raise, atomic, ◌>>=◌, ◌>>◌, modify, raise_if,
}
use tip_metro_drip_ecommerce.Orders.{pending, OrderError, Columns, Instance, Table}
use tip_metro_drip_ecommerce.Orders.Write.{insert_row, initial_status, transition_to}
use tip_metro_drip_ecommerce.Orders.Number.{NumberError, next_order_no}
use tip_metro_drip_ecommerce.Checkout.{CartLine, parse_items}

-- `InsufficientStock`, `ReservationUnavailable`, and whatever else a provider raises.
pub data StockFailure : Type 0 where
  insufficient_stock reservation_unavailable refused : StockFailure

-- A fault of the database inside `_build_order`.
pub data Fault : Type 0 where
  deadlock operational_error database_error : Fault

pub data Failure : Type 0 where
  checkout_error payment_session_error : Failure
  stock : StockFailure → Failure
  fault : Fault → Failure
  order : OrderError → Failure
  number : NumberError → Failure
  -- `checkout_id` is unique in `StockHold`.
  duplicate_hold : Failure

pub data StockHoldState : Type 0 where
  active committed released unknown : StockHoldState

pub record StockHold : Type 0 where
  pub order_id : ℕ
  pub checkout_id : String
  pub state : StockHoldState

pub record OrderItem : Type 0 where
  pub order_id : ℕ
  pub variant_id : ℕ
  pub qty : ℕ
  pub unit_price_snapshot : ℕ

-- The calls of a provider of apps/inventory that a checkout makes.
pub record StockLedger (L : Type 0) : Type 0 where
  pub reserve_lines : String → Dict ℕ → Action StockFailure L (Unit {0})
  pub release_holds : String → Action StockFailure L (Unit {0})

pub record Shop (L : Type 0) : Type 0 where
  pub ledger : L
  pub numbers : Dict ℕ
  pub orders : Table
  pub items : List OrderItem
  pub holds : List StockHold

pub record Env : Type 0 where
  pub checkout_id : String
  pub name : String
  pub email : String
  -- The fee of the zone, if there is such a zone and it is active.
  pub zone_fee : Option ℕ
  pub prices : Dict ℕ
  pub year : ℕ
  pub ascii : List ℕ → String
  -- What strikes the attempt of this number to build the order.
  pub fault_at : ℕ → Option Fault
  -- `create_checkout_session`: the URL, or it raises.
  pub session : ℕ → Option String

abbrev pub deadlock_attempts : ℕ
deadlock_attempts = 3

-- `try: m … except … as e: h e`
abbrev pub catch : {E E' S A : Type 0} → Action E S A → (E → Action E' S A) → Action E' S A
catch m h s = elim (m s).0 [ ok a ↦ (ok a, (m s).1) | err e ↦ h e (m s).1 ]

abbrev pub Saga : Type 0 → Type 0 → Type 0
Saga L A = Action Failure (Shop L) A

-- Every variant of the cart has a price; and what the cart costs.
abbrev pub all_priced : Dict ℕ → Dict ℕ → Bool
all_priced prices [] = true
all_priced prices ((v, n) ∷ d) =
    elim (lookup v prices) [ none ↦ false | some p ↦ true ] && all_priced prices d

abbrev pub price : Dict ℕ → ℕ → ℕ
price prices v = elim (lookup v prices) [ none ↦ 0 | some p ↦ p ]

abbrev pub subtotal : Dict ℕ → Dict ℕ → ℕ
subtotal prices [] = 0
subtotal prices ((v, n) ∷ d) = price prices v * n + subtotal prices d

abbrev pub order_items : ℕ → Dict ℕ → Dict ℕ → List OrderItem
order_items k prices [] = []
order_items k prices ((v, n) ∷ d) =
    record { order_id = k; variant_id = v; qty = n; unit_price_snapshot = price prices v }
    ∷ order_items k prices d

abbrev pub hold_taken : String → List StockHold → Bool
hold_taken c [] = false
hold_taken c (h ∷ hs) = str_eq h.checkout_id c || hold_taken c hs

-- `.filter(order=order).update(state=…)`
abbrev pub mark_holds : ℕ → StockHoldState → List StockHold → List StockHold
mark_holds k state [] = []
mark_holds k state (h ∷ hs) =
    (if h.order_id == k then record h { state = state } else h) ∷ mark_holds k state hs

abbrev pub columns_of : ℕ → Table → Columns
columns_of k t = elim (lookup k t.rows) [
  | none ↦ record { order_no = ""; subtotal = 0; shipping_fee = 0; total = 0 }
  | some r ↦ r.columns
]

abbrev pub order_columns : Env → Dict ℕ → ℕ → String → Columns
order_columns env quantities fee label = record {
  order_no = label;
  subtotal = subtotal env.prices quantities;
  shipping_fee = fee;
  total = subtotal env.prices quantities + fee;
}

module _ {L : Type 0} where
  -- A call on one of the tables, whose error becomes one of the checkout.
  abbrev pub on_ledger : {A : Type 0} → Action StockFailure L A → Saga L A
  on_ledger m s = elim (m s.ledger).0 [
    | ok a ↦ (ok a, record s { ledger = (m s.ledger).1 })
    | err e ↦ (err (stock e), record s { ledger = (m s.ledger).1 })
  ]

  abbrev pub on_orders : {A : Type 0} → Action OrderError Table A → Saga L A
  on_orders m s = elim (m s.orders).0 [
    | ok a ↦ (ok a, record s { orders = (m s.orders).1 })
    | err e ↦ (err (order e), record s { orders = (m s.orders).1 })
  ]

  abbrev pub on_numbers : {A : Type 0} → Action NumberError (Dict ℕ) A → Saga L A
  on_numbers m s = elim (m s.numbers).0 [
    | ok a ↦ (ok a, record s { numbers = (m s.numbers).1 })
    | err e ↦ (err (number e), record s { numbers = (m s.numbers).1 })
  ]

  -- The order's items, and its receipt for the stock.
  abbrev pub write_receipt : Env → Dict ℕ → ℕ → Saga L ℕ
  write_receipt env quantities k = do
    modify (λ s. record s { items = s.items ++ order_items k env.prices quantities })
    taken ← gets (λ s. hold_taken env.checkout_id s.holds)
    raise_if taken duplicate_hold
    modify (λ s. record s {
      holds =
          s.holds ++ record { order_id = k; checkout_id = env.checkout_id; state = active } ∷ [];
    })
    pure k

  -- `Order.objects.create(…)` under its number, and what follows it.
  pub write_order : Env → Dict ℕ → ℕ → List ℕ → Saga L ℕ
  write_order env quantities fee digits = do
    status ← on_orders (initial_status "pending")
    k ← on_orders (insert_row (order_columns env quantities fee (env.ascii digits)) status)
    write_receipt env quantities k

  -- The block of `_build_order` when no fault strikes.
  pub create_order : Env → Dict ℕ → ℕ → Saga L ℕ
  unfolding write_order
  create_order env quantities fee =
      on_numbers (next_order_no env.year none) >>= write_order env quantities fee

  -- `_build_order`: whatever fails in its transaction, nothing of it stays.
  unfoldable pub build_order : Env → Dict ℕ → ℕ → ℕ → Saga L ℕ
  unfolding create_order
  build_order env quantities fee attempt = elim (env.fault_at attempt) [
    | none ↦ atomic (create_order env quantities fee)
    | some f ↦ raise (fault f)
  ]

  -- `_release_quietly`
  abbrev pub release_quietly : StockLedger L → String → Saga L Bool
  release_quietly ops c = catch (on_ledger (ops.release_holds c) >> pure true) (λ _. pure false)

  abbrev pub release_and_raise : {A : Type 0} → StockLedger L → String → Failure → Saga L A
  release_and_raise ops c e = release_quietly ops c >> raise e

  -- What the loop does when an attempt raises: `again` is the next attempt, if there is one.
  abbrev pub after_attempt : StockLedger L → String → Option (Saga L ℕ) → Failure → Saga L ℕ
  after_attempt ops c none e = release_and_raise ops c e
  after_attempt ops c (some again) (fault deadlock) = again
  after_attempt ops c (some again) e = release_and_raise ops c e

  -- The loop over the attempts: how many may follow this one, and its number.
  pub build_each : StockLedger L → Env → Dict ℕ → ℕ → ℕ → ℕ → Saga L ℕ
  build_each ops env quantities fee zero attempt =
      catch (build_order env quantities fee attempt) (after_attempt ops env.checkout_id none)
  build_each ops env quantities fee (suc n) attempt =
      catch (build_order env quantities fee attempt) (
        after_attempt ops env.checkout_id
          (some (build_each ops env quantities fee n (attempt + 1))))

  -- `order.transition_to(OrderStatus.CANCELLED)`, whose failure is only logged.
  abbrev pub cancel_quietly : ℕ → Columns → Saga L (Unit {0})
  cancel_quietly k c =
      catch
        (on_orders (
            transition_to (record { adding = false; pk = k; columns = c; status = "pending" })
              "cancelled")
          >> pure tt)
        (λ _. pure tt)

  -- The compensation when no payment session could be made.
  unfoldable pub abandon : StockLedger L → Env → ℕ → Columns → Saga L String
  abandon ops env k c = do
    freed ← release_quietly ops env.checkout_id
    modify (λ s. record s { holds = mark_holds k (if freed then released else unknown) s.holds })
    cancel_quietly k c
    raise payment_session_error

  abbrev pub after_reserve : StockLedger L → String → Failure → Saga L (Unit {0})
  after_reserve ops c (stock reservation_unavailable) =
      release_and_raise ops c (stock reservation_unavailable)
  after_reserve ops c e = raise e

  -- Stock is reserved before any row of the order exists; an uncertain answer is compensated.
  pub reserve : StockLedger L → Env → Dict ℕ → Saga L (Unit {0})
  reserve ops env quantities =
      catch (on_ledger (ops.reserve_lines env.checkout_id quantities))
        (after_reserve ops env.checkout_id)

  -- The payment session of the order that was built.
  pub open_session : StockLedger L → Env → ℕ → Saga L (ℕ × String)
  unfolding abandon
  open_session ops env k = elim (env.session k) [
    | some url ↦ pure (k, url)
    | none ↦
        (gets (λ s. columns_of k s.orders) >>= λ c. abandon ops env k c >>= λ url. pure (k, url))
  ]

  -- What follows once the cart is priced.
  pub secure : StockLedger L → Env → Dict ℕ → ℕ → Saga L (ℕ × String)
  unfolding reserve build_each open_session
  secure ops env quantities fee =
      reserve ops env quantities
      >> (build_each ops env quantities fee 2 1 >>= λ k. open_session ops env k)

  -- `place_order`
  unfoldable pub place_order : StockLedger L → Env → Option (List CartLine) → Saga L (ℕ × String)
  unfolding secure
  place_order ops env items = do
    quantities ← or_raise checkout_error (parse_items items)
    raise_if (str_eq env.name "" || str_eq env.email "") checkout_error
    fee ← or_raise checkout_error env.zone_fee
    raise_if (not (all_priced env.prices quantities)) checkout_error
    secure ops env quantities fee
