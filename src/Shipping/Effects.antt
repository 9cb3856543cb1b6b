-- ===== src/Shipping/Effects.antt =====
-- apps/shipping/webhooks.py: what a call of the webhook changes.
use tip_metro_drip_ecommerce.Base.{
  ℕ, ◌≡◌, refl, sym, ap, ◌∙◌, subst, String, str_eq, Bool, true, false, not, ◌&&◌, ◌||◌, Option,
  none, some, List, [], ◌∷◌, ◌++◌, Dict, lookup, if◌then◌else◌, ◌==◌, Bool-cases, inl, inr, ◌⊎◌,
  arith,
}
use tip_metro_drip_ecommerce.Base.Action.{Result, pure}
use tip_metro_drip_ecommerce.Orders.{OrderStatus, Table}
use tip_metro_drip_ecommerce.Shipping.{
  ShipmentStatus, pending, booked, in_transit, out_for_delivery, delivered, failed, same_status,
  Shipment, Desk, Parsed, malformed, not_object, fields, WebError, Env, WebRequest, signature_valid,
  courier_status, with_waybill, set_status, save_status, update_found, update_waybill, normalized,
  by_fields, courier_webhook, order_target, advance,
}
use tip_metro_drip_ecommerce.Shipping.Moves.{Delivers, advance_effect}
use tip_metro_drip_ecommerce.Shipping.Again.{
  rest_state, update_same, update_other, courier_webhook_again,
}

-- Why a call changes nothing: it is not signed under a secret that is set, or its body names no
-- waybill and status of the vocabulary, or not exactly one shipment has the waybill.
pub data IsIgnored (env : Env) (req : WebRequest) (s : Desk) : Type 0 where
  no_secret : str_eq env.secret "" ≡ true → IsIgnored env req s
  no_signature : str_eq req.signature "" ≡ true → IsIgnored env req s
  other_signature :
      str_eq (env.hexdigest env.secret req.body) req.signature ≡ false → IsIgnored env req s
  no_json : env.loads req.body ≡ malformed → IsIgnored env req s
  no_object : env.loads req.body ≡ not_object → IsIgnored env req s
  blank_field :
      (waybill raw : String)
      → env.loads req.body ≡ fields waybill raw
      → (str_eq (env.strip waybill) "" || str_eq (normalized env raw) "") ≡ true
      → IsIgnored env req s
  unmapped :
      (waybill raw : String)
      → env.loads req.body ≡ fields waybill raw
      → courier_status (normalized env raw) ≡ none
      → IsIgnored env req s
  unknown_waybill :
      (waybill raw : String)
      → env.loads req.body ≡ fields waybill raw
      → with_waybill (env.strip waybill) s.shipments ≡ []
      → IsIgnored env req s
  shared_waybill :
      (waybill raw : String)
      → env.loads req.body ≡ fields waybill raw
      → (a b : ℕ × Shipment) (more : Dict Shipment)
      → with_waybill (env.strip waybill) s.shipments ≡ a ∷ b ∷ more
      → IsIgnored env req s

-- The push of a shipment that comes to this status.
abbrev pub pushed_on : ShipmentStatus → ℕ → List ℕ → List ℕ
pushed_on pending k pushes = pushes
pushed_on booked k pushes = pushes
pushed_on in_transit k pushes = pushes
pushed_on out_for_delivery k pushes = pushes ++ k ∷ []
pushed_on delivered k pushes = pushes
pushed_on failed k pushes = pushes

abbrev pub with_status : ShipmentStatus → Option Shipment → Option Shipment
with_status status none = none
with_status status (some x) = some (record x { status = status })

-- The shipment `k`, found as `x`: it has the status, and nothing changes; or it gets it, no other
-- shipment `j` does, and a push is sent if it is now Out for Delivery.
abbrev pub IsWritten : ℕ → Shipment → ShipmentStatus → ℕ → Desk → Desk → Type 0
IsWritten k x status j s t =
    ((same_status x.status status ≡ true) × (t.shipments ≡ s.shipments) × (t.pushes ≡ s.pushes))
    ⊎ ((same_status x.status status ≡ false)
        × (lookup j t.shipments
            ≡ (if j == k then with_status status (lookup j s.shipments) else lookup j s.shipments))
        × (t.pushes ≡ pushed_on status k s.pushes))

-- Only a delivery moves the order.
abbrev pub IsMoved : ShipmentStatus → ℕ → Table → Table → Type 0
IsMoved pending order_id s t = t ≡ s
IsMoved booked order_id s t = t ≡ s
IsMoved in_transit order_id s t = t ≡ s
IsMoved out_for_delivery order_id s t = t ≡ s
IsMoved delivered order_id s t = Delivers OrderStatus.delivered order_id s t
IsMoved failed order_id s t = t ≡ s

-- The call is signed, and names one shipment and a status.
abbrev pub IsApplied : Env → WebRequest → ℕ → Desk → Desk → Type 0
IsApplied env req j s t =
    (str_eq env.secret "" ≡ false)
    × (str_eq (env.hexdigest env.secret req.body) req.signature ≡ true)
    × ((waybill : String) × (raw : String) × (status : ShipmentStatus) × (k : ℕ) × (x : Shipment)
        × (env.loads req.body ≡ fields waybill raw)
        × (courier_status (normalized env raw) ≡ some status)
        × (with_waybill (env.strip waybill) s.shipments ≡ (k, x) ∷ [])
        × IsWritten k x status j s t
        × IsMoved status x.order_id s.orders t.orders)

-- The update of one shipment.
abbrev IsUpdated : ShipmentStatus → ℕ → Shipment → ℕ → Desk → Desk → Type 0
IsUpdated status k x j s t =
    IsWritten k x status j s t × IsMoved status x.order_id s.orders t.orders

lookup-set_status :
    (j k : ℕ) (status : ShipmentStatus) (rows : Dict Shipment)
    → lookup j (set_status k status rows)
      ≡ (if j == k then with_status status (lookup j rows) else lookup j rows)
unfolding set_status
lookup-set_status j k status [] = ground arith
lookup-set_status j k status ((i, x) ∷ rows) = ground (arith, lookup-set_status j k status rows)

-- A shipment that gets a new status was not Out for Delivery before, if it is now.
edge :
    (previous status : ShipmentStatus) (k : ℕ) (pushes : List ℕ)
    → same_status previous status ≡ false
    → (if same_status status out_for_delivery && not (same_status previous out_for_delivery)
        then pushes ++ k ∷ []
        else pushes)
      ≡ pushed_on status k pushes
edge previous pending k pushes e = refl
edge previous booked k pushes e = refl
edge previous in_transit k pushes e = refl
edge previous out_for_delivery k pushes e = rw e refl
edge previous delivered k pushes e = refl
edge previous failed k pushes e = refl

rest_effect :
    (status : ShipmentStatus) (waybill : String) (order_id : ℕ) (s : Desk)
    → (t : Table) × ((advance order_id (order_target status) s).1 ≡ record s { orders = t })
      × IsMoved status order_id s.orders t
unfolding advance
rest_effect pending w o s = (s.orders, refl, refl)
rest_effect booked w o s = (s.orders, refl, refl)
rest_effect in_transit w o s = (s.orders, refl, refl)
rest_effect out_for_delivery w o s = (s.orders, refl, refl)
rest_effect delivered w o s = advance_effect o OrderStatus.delivered s
rest_effect failed w o s = (s.orders, refl, refl)

-- `update_found` of one shipment.
update_one :
    (waybill : String) (status : ShipmentStatus) (k : ℕ) (x : Shipment) (j : ℕ) (s : Desk)
    → IsUpdated status k x j s (update_found status ((k, x) ∷ []) s).1
unfolding save_status
update_one w status k x j s = elim (Bool-cases (same_status x.status status)) [
  | inl same ↦
      let (t, at, m) = rest_effect status w x.order_id s in
      subst (IsUpdated status k x j s)
        (sym (
          ap (λ (p : Result WebError ℕ × Desk). p.1) (update_same w status k x s same)
          ∙ (rest_state w status x.order_id s ∙ at)))
        (inl (same, refl, refl), m)
  | inr other ↦
      let u = (save_status k x.status status s).1 in
      let (t, at, m) = rest_effect status w x.order_id u in
      subst (IsUpdated status k x j s)
        (sym (
          ap (λ (p : Result WebError ℕ × Desk). p.1) (update_other w status k x s other)
          ∙ (rest_state w status x.order_id u ∙ at)))
        (
          inr (
            other,
            lookup-set_status j k status s.shipments,
            edge x.status status k s.pushes other,
          ),
          m,
        )
]

module _ (env : Env) (req : WebRequest) (j : ℕ) (s : Desk) where
  abbrev Outcome : Desk → Type 0
  Outcome t = (IsIgnored env req s × (t ≡ s)) ⊎ IsApplied env req j s t

  module _ (secret : str_eq env.secret "" ≡ false)
      (signed : str_eq (env.hexdigest env.secret req.body) req.signature ≡ true)
      (waybill raw : String) (read : env.loads req.body ≡ fields waybill raw) where
    found-Outcome :
        (status : ShipmentStatus) (found : Dict Shipment)
        → courier_status (normalized env raw) ≡ some status
        → with_waybill (env.strip waybill) s.shipments ≡ found
        → Outcome (update_found status found s).1
    unfolding update_found
    found-Outcome status [] c f = inl (unknown_waybill waybill raw read f, refl)
    found-Outcome status ((k, x) ∷ []) c f =
        let u = update_one (env.strip waybill) status k x j s in
        inr (secret, signed, (waybill, raw, status, k, x, read, c, f, u.0, u.1))
    found-Outcome status (a ∷ b ∷ more) c f = inl (shared_waybill waybill raw read a b more f, refl)

    waybill-Outcome :
        (o : Option ShipmentStatus)
        → courier_status (normalized env raw) ≡ o
        → Outcome (update_waybill (env.strip waybill) o s).1
    unfolding update_waybill
    waybill-Outcome none c = inl (unmapped waybill raw read c, refl)
    waybill-Outcome (some status) c =
        found-Outcome status (with_waybill (env.strip waybill) s.shipments) c refl

  fields-Outcome :
      (p : Parsed)
      → str_eq env.secret "" ≡ false
      → str_eq (env.hexdigest env.secret req.body) req.signature ≡ true
      → env.loads req.body ≡ p
      → Outcome (by_fields env p s).1
  unfolding by_fields
  fields-Outcome malformed h g e = inl (no_json e, refl)
  fields-Outcome not_object h g e = inl (no_object e, refl)
  fields-Outcome (fields waybill raw) h g e =
      elim (Bool-cases (str_eq (env.strip waybill) "" || str_eq (normalized env raw) "")) [
        | inl blank ↦ rw blank (inl (blank_field waybill raw e blank, refl))
        | inr full ↦
            rw full (waybill-Outcome h g waybill raw e (courier_status (normalized env raw)) refl)
      ]

  webhook_state :
      (b : Bool)
      → signature_valid env req ≡ b
      → (courier_webhook env req s).1 ≡ (if b then (by_fields env (env.loads req.body) s).1 else s)
  unfolding courier_webhook
  webhook_state true e =
      ap (λ (b : Bool). ((if b then by_fields env (env.loads req.body) else pure 400) s).1) e
  webhook_state false e =
      ap (λ (b : Bool). ((if b then by_fields env (env.loads req.body) else pure 400) s).1) e

  ignored :
      IsIgnored env req s → signature_valid env req ≡ false → Outcome (courier_webhook env req s).1
  ignored why e = inl (why, webhook_state false e)

  webhook-Outcome : Outcome (courier_webhook env req s).1
  webhook-Outcome = elim (Bool-cases (str_eq env.secret "")) [
    | inl e ↦ ignored (no_secret e) (rw e refl)
    | inr e ↦ elim (Bool-cases (str_eq req.signature "")) [
      | inl f ↦ ignored (no_signature f) (rw (e, f) refl)
      | inr f ↦ elim (Bool-cases (str_eq (env.hexdigest env.secret req.body) req.signature)) [
        | inl g ↦
            subst Outcome (sym (webhook_state true (rw (e, f, g) refl)))
              (fields-Outcome (env.loads req.body) e g refl)
        | inr g ↦ ignored (other_signature g) (rw (e, f, g) refl)
      ]
    ]
  ]

-- A call of the webhook changes nothing, for one of the reasons of `IsIgnored`; or it is signed and
-- names exactly one shipment: that shipment gets the status that the courier reports and no other
-- does, a push is sent exactly if it comes to be Out for Delivery, and the order moves exactly if the
-- shipment is delivered and the order may be. The same call delivered again right after it, whatever
-- the first one was answered, an error included, changes nothing more.
pub courier_webhook_lem :
    (env : Env) (req : WebRequest) (j : ℕ) (s : Desk)
    → ((IsIgnored env req s × ((courier_webhook env req s).1 ≡ s))
        ⊎ IsApplied env req j s (courier_webhook env req s).1)
      × ((courier_webhook env req (courier_webhook env req s).1).1 ≡ (courier_webhook env req s).1)
courier_webhook_lem env req j s = (webhook-Outcome env req j s, courier_webhook_again env req s)
