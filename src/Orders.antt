-- ===== src/Orders.antt =====
-- The order of apps/orders/models.py: its statuses, the legal edges between them, and the table.
pub mod Database
pub mod Write
pub mod Number
mod Tests
use tip_metro_drip_ecommerce.Base.{
  ℕ, ◌+◌, String, Bool, true, false, Option, none, some, List, Dict, str_eq, ◌==◌, if◌then◌else◌,
}

pub data OrderStatus : Type 0 where
  pending paid packed shipped delivered cancelled refunded : OrderStatus

-- The stored text of a status.
abbrev pub text : OrderStatus → String
text pending = "pending"
text paid = "paid"
text packed = "packed"
text shipped = "shipped"
text delivered = "delivered"
text cancelled = "cancelled"
text refunded = "refunded"

-- `OrderStatus(value)`, which raises on any other text.
unfoldable pub order_status : String → Option OrderStatus
order_status s =
    if str_eq s "pending"
    then some pending
    else if str_eq s "paid"
    then some paid
    else if str_eq s "packed"
    then some packed
    else if str_eq s "shipped"
    then some shipped
    else if str_eq s "delivered"
    then some delivered
    else if str_eq s "cancelled"
    then some cancelled
    else if str_eq s "refunded"
    then some refunded
    else none

-- `target in ALLOWED_TRANSITIONS[current]`
unfoldable pub allowed : OrderStatus → OrderStatus → Bool
allowed pending paid = true
allowed pending cancelled = true
allowed paid packed = true
allowed paid refunded = true
allowed packed shipped = true
allowed packed refunded = true
allowed shipped delivered = true
allowed shipped refunded = true
allowed delivered refunded = true
allowed _ _ = false

-- The columns of an order that carry its identity and its money, in centavos.
pub record Columns : Type 0 where
  pub order_no : String
  pub subtotal : ℕ
  pub shipping_fee : ℕ
  pub total : ℕ

pub record Row : Type 0 where
  pub columns : Columns
  pub status : OrderStatus

-- An instance in memory: `adding` until it is saved, its status any text that was assigned to it, and
-- its key 0 if it has none; the keys of the table start at 1.
pub record Instance : Type 0 where
  pub adding : Bool
  pub pk : ℕ
  pub columns : Columns
  pub status : String

-- The table, the next primary key, and the pushes sent by `notify_order_event`, oldest first.
pub record Table : Type 0 where
  pub rows : Dict Row
  pub next_pk : ℕ
  pub pushes : List (ℕ × OrderStatus)

pub data OrderError : Type 0 where
  illegal_transition does_not_exist integrity_error value_error database_error : OrderError

-- `chk_order_total_reconciles`
abbrev pub reconciles : Columns → Bool
reconciles c = c.total == c.subtotal + c.shipping_fee
