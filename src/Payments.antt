-- ===== src/Payments.antt =====
-- apps/payments/models.py, and the tables of Orders that a payment writes. The stock ledger is seen
-- through its calls, and stands on a connection of its own: a transaction of Orders does not take its
-- writes back.
pub mod Holds
pub mod Simulated
mod Tests
use tip_metro_drip_ecommerce.Base.{
  ℕ, ◌+◌, String, Bool, true, false, Option, none, some, List, [], ◌∷◌, Dict, lookup, ◌==◌,
  if◌then◌else◌,
}
use tip_metro_drip_ecommerce.Base.Action.{Result, ok, err, Action}
use tip_metro_drip_ecommerce.Orders.{OrderError, Table}
use tip_metro_drip_ecommerce.Outbox.{Message}
use tip_metro_drip_ecommerce.Checkout.Saga.{StockFailure, StockHold, OrderItem}

pub data PaymentMethod : Type 0 where
  card gcash maya : PaymentMethod

pub data PaymentStatus : Type 0 where
  pending paid failed refunded : PaymentStatus

pub record Payment : Type 0 where
  pub provider_ref : Option String
  pub method : PaymentMethod
  pub status : PaymentStatus
  pub amount : ℕ
  pub paid_at : Option ℕ

-- The payloads of the two topics, `order.fulfill_stock` and `stock.commit`.
pub data Task : Type 0 where
  fulfill : ℕ → Task
  commit : String → String → ℕ → Task

pub data PaymentError : Type 0 where
  payment_missing order_missing unpaid_order : PaymentError
  order : OrderError → PaymentError
  stock : StockFailure → PaymentError

-- The calls of the stock ledger that a payment makes.
pub record StockRoom (L : Type 0) : Type 0 where
  pub reserve_lines : String → Dict ℕ → Action StockFailure L (Unit {0})
  pub commit_holds : String → String → ℕ → Action StockFailure L (Dict ℕ)

-- The ledger, and the tables of Orders; a payment is found by its order.
pub record Books (L : Type 0) : Type 0 where
  pub ledger : L
  pub orders : Table
  pub items : List OrderItem
  pub holds : List StockHold
  pub payments : Dict Payment
  pub outbox : List (Message Task)
  pub next_message : ℕ

abbrev pub Pay : Type 0 → Type 0 → Type 0
Pay L A = Action PaymentError (Books L) A

module _ {L A : Type 0} where
  -- `transaction.atomic()` over the tables of Orders.
  abbrev pub in_orders : Pay L A → Pay L A
  in_orders m s = elim (m s).0 [
    | ok a ↦ (ok a, (m s).1)
    | err e ↦ (err e, record s { ledger = (m s).1.ledger })
  ]

  abbrev pub on_ledger : Action StockFailure L A → Pay L A
  on_ledger m s = elim (m s.ledger).0 [
    | ok a ↦ (ok a, record s { ledger = (m s.ledger).1 })
    | err e ↦ (err (stock e), record s { ledger = (m s.ledger).1 })
  ]

  abbrev pub on_orders : Action OrderError Table A → Pay L A
  on_orders m s = elim (m s.orders).0 [
    | ok a ↦ (ok a, record s { orders = (m s.orders).1 })
    | err e ↦ (err (order e), record s { orders = (m s.orders).1 })
  ]
