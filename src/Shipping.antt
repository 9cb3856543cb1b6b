-- ===== src/Shipping.antt =====
-- apps/shipping/models.py and apps/shipping/webhooks.py: the shipments, and the status updates that the
-- courier pushes.
pub mod Moves
pub mod Again
pub mod Effects
mod Tests
use tip_metro_drip_ecommerce.Base.{
  ℕ, String, str_eq, Bool, true, false, not, ◌&&◌, ◌||◌, Option, none, some, List, [], ◌∷◌, ◌++◌,
  Dict, lookup, ◌==◌, if◌then◌else◌,
}
use tip_metro_drip_ecommerce.Base.Action.{
  Result, ok, err, Action, pure, raise, gets, or_raise, ◌>>=◌, ◌>>◌, modify,
}
use tip_metro_drip_ecommerce.Orders.{
  OrderStatus, text, Row, Instance, Table, OrderError, illegal_transition, does_not_exist,
  integrity_error, value_error, database_error,
}
use tip_metro_drip_ecommerce.Orders.Write.{transition_to}

pub data ShipmentStatus : Type 0 where
  pending booked in_transit out_for_delivery delivered failed : ShipmentStatus

abbrev pub status_text : ShipmentStatus → String
status_text pending = "pending"
status_text booked = "booked"
status_text in_transit = "in_transit"
status_text out_for_delivery = "out_for_delivery"
status_text delivered = "delivered"
status_text failed = "failed"

abbrev pub same_status : ShipmentStatus → ShipmentStatus → Bool
same_status a b = str_eq (status_text a) (status_text b)

pub record Shipment : Type 0 where
  pub order_id : ℕ
  pub waybill_no : String
  pub status : ShipmentStatus

-- The shipments by primary key, the orders, and the shipments whose Out-for-Delivery push was sent.
pub record Desk : Type 0 where
  pub shipments : Dict Shipment
  pub orders : Table
  pub pushes : List ℕ

-- A body that is no JSON, one that is no object, and the texts of its two fields.
pub data Parsed : Type 0 where
  malformed not_object : Parsed
  fields : String → String → Parsed

-- `AttributeError`, `MultipleObjectsReturned` and what the orders raise: a failed request.
pub data WebError : Type 0 where
  attribute_error multiple_objects_returned : WebError
  order_error : OrderError → WebError

-- The setting; `hmac.new(…).hexdigest()`, `json.loads`, and the methods of `str`.
pub record Env : Type 0 where
  pub secret : String
  pub hexdigest : String → String → String
  pub loads : String → Parsed
  pub strip : String → String
  pub lower : String → String
  pub underscored : String → String

pub record WebRequest : Type 0 where
  pub signature : String
  pub body : String

abbrev pub Call : Type 0 → Type 0
Call = Action WebError Desk

-- `_signature_valid`. A signature that is not ASCII makes `compare_digest` raise `TypeError`; here it is
-- refused, which writes as little.
abbrev pub signature_valid : Env → WebRequest → Bool
signature_valid env req =
    not (str_eq env.secret "")
    && (not (str_eq req.signature "") && str_eq (env.hexdigest env.secret req.body) req.signature)

-- `COURIER_STATUS_MAP`
unfoldable pub courier_status : String → Option ShipmentStatus
courier_status s =
    if str_eq s "booked"
    then some booked
    else if str_eq s "picked_up" || (str_eq s "in_transit" || str_eq s "intransit")
    then some in_transit
    else if str_eq s "out_for_delivery" || str_eq s "outfordelivery"
    then some out_for_delivery
    else if str_eq s "delivered"
    then some delivered
    else if str_eq s "failed" || (str_eq s "failed_delivery" || str_eq s "returned")
    then some failed
    else none

-- `ORDER_TRANSITION_FOR`
abbrev pub order_target : ShipmentStatus → Option OrderStatus
order_target pending = none
order_target booked = none
order_target in_transit = none
order_target out_for_delivery = none
order_target delivered = some OrderStatus.delivered
order_target failed = none

-- The rows with this waybill, which no constraint makes unique.
unfoldable pub with_waybill : String → Dict Shipment → Dict Shipment
with_waybill w [] = []
with_waybill w ((k, x) ∷ rows) =
    if str_eq x.waybill_no w then (k, x) ∷ with_waybill w rows else with_waybill w rows

-- UPDATE … SET status WHERE id = k
unfoldable pub set_status : ℕ → ShipmentStatus → Dict Shipment → Dict Shipment
set_status k status [] = []
set_status k status ((j, x) ∷ rows) =
    (j, record x { status = if j == k then status else x.status }) ∷ set_status k status rows

-- `Shipment.save(update_fields=["status"])` of a row that was just read: the push of its edge into Out
-- for Delivery.
unfoldable pub save_status : ℕ → ShipmentStatus → ShipmentStatus → Call (Unit {0})
unfolding set_status
save_status k previous status =
    modify (λ s. record s { shipments = set_status k status s.shipments })
    >> modify (λ s. record s {
      pushes =
          if same_status status out_for_delivery && not (same_status previous out_for_delivery)
          then s.pushes ++ k ∷ []
          else s.pushes;
    })

-- `except IllegalTransition`
abbrev pub or_logged : Desk → Result OrderError Instance × Table → Result WebError (Unit {0}) × Desk
or_logged s (ok o, t) = (ok tt, record s { orders = t })
or_logged s (err illegal_transition, t) = (ok tt, record s { orders = t })
or_logged s (err does_not_exist, t) = (err (order_error does_not_exist), record s { orders = t })
or_logged s (err integrity_error, t) = (err (order_error integrity_error), record s { orders = t })
or_logged s (err value_error, t) = (err (order_error value_error), record s { orders = t })
or_logged s (err database_error, t) = (err (order_error database_error), record s { orders = t })

-- The move of an order that was read, unless it is there already.
unfoldable pub move_order : ℕ → OrderStatus → Row → Call (Unit {0})
move_order k target row s =
    if str_eq (text row.status) (text target)
    then (ok tt, s)
    else or_logged s (
        transition_to
          (record { adding = false; pk = k; columns = row.columns; status = text row.status })
          (text target) s.orders)

unfoldable pub advance : ℕ → Option OrderStatus → Call (Unit {0})
unfolding move_order
advance k none = pure tt
advance k (some target) = do
  row ← or_raise (order_error does_not_exist) (← gets (λ s. lookup k s.orders.rows))
  move_order k target row

-- The update of the shipments that `get` found.
unfoldable pub update_found : ShipmentStatus → Dict Shipment → Call ℕ
unfolding advance save_status
update_found status [] = pure 200
update_found status ((k, x) ∷ []) =
    (if same_status x.status status then pure tt else save_status k x.status status)
    >> (advance x.order_id (order_target status) >> pure 200)
update_found status (x ∷ y ∷ rest) = raise multiple_objects_returned

unfoldable pub update_waybill : String → Option ShipmentStatus → Call ℕ
unfolding update_found with_waybill
update_waybill waybill none = pure 200
update_waybill waybill (some status) =
    gets (λ s. with_waybill waybill s.shipments) >>= update_found status

abbrev pub normalized : Env → String → String
normalized env s = env.underscored (env.lower (env.strip s))

unfoldable pub by_fields : Env → Parsed → Call ℕ
unfolding update_waybill courier_status
by_fields env malformed = pure 400
by_fields env not_object = raise attribute_error
by_fields env (fields waybill status) =
    if str_eq (env.strip waybill) "" || str_eq (normalized env status) ""
    then pure 400
    else update_waybill (env.strip waybill) (courier_status (normalized env status))

-- `courier_webhook`
unfoldable pub courier_webhook : Env → WebRequest → Call ℕ
unfolding by_fields
courier_webhook env req =
    if signature_valid env req then by_fields env (env.loads req.body) else pure 400
