-- ===== src/Shipping/Again.antt =====
-- apps/shipping/webhooks.py: a status update that the courier delivers again.
use tip_metro_drip_ecommerce.Base.{
  ℕ, ◌≡◌, refl, sym, ap, ◌∙◌, subst, String, str_eq, Bool, true, false, ◌||◌, Option, none, some,
  [], ◌∷◌, Dict, if◌then◌else◌, ◌==◌, Bool-cases, inl, inr, arith,
}
use tip_metro_drip_ecommerce.Base.Action.{Result, ok, err, pure, ◌>>◌}
use package.text.Mathlib.TextPositions.{eq_refl}
use tip_metro_drip_ecommerce.Orders.{text}
use tip_metro_drip_ecommerce.Shipping.{
  status_text, ShipmentStatus, same_status, Shipment, Desk, Parsed, malformed, not_object, fields,
  WebError, Env, WebRequest, Call, signature_valid, courier_status, order_target, with_waybill,
  set_status, save_status, advance, update_found, update_waybill, normalized, by_fields,
  courier_webhook,
}
use tip_metro_drip_ecommerce.Shipping.Moves.{advance_lem}

-- Done again, it changes nothing.
abbrev IsIdempotent : {A : Type 0} → Call A → Type 0
IsIdempotent m = (s : Desk) → (m (m s).1).1 ≡ (m s).1

same_status_refl : (status : ShipmentStatus) → same_status status status ≡ true
same_status_refl status = eq_refl (status_text status)

with_waybill-set_status :
    (w : String) (k : ℕ) (status : ShipmentStatus) (rows : Dict Shipment)
    → with_waybill w (set_status k status rows) ≡ set_status k status (with_waybill w rows)
unfolding with_waybill set_status
with_waybill-set_status w k status [] = refl
with_waybill-set_status w k status ((j, x) ∷ rows) = elim (Bool-cases (str_eq x.waybill_no w)) [
  | inl mine ↦ rw mine (
      ap (λ z. (j, record x { status = if j == k then status else x.status }) ∷ z)
        (with_waybill-set_status w k status rows))
  | inr other ↦ rw other (with_waybill-set_status w k status rows)
]

same_key : (k : ℕ) → (k == k) ≡ true
same_key k = ground arith

module _ (waybill : String) (status : ShipmentStatus) where
  pub update_waybill_found :
      (s : Desk) {found : Dict Shipment}
      → with_waybill waybill s.shipments ≡ found
      → update_waybill waybill (some status) s ≡ update_found status found s
  unfolding update_waybill
  update_waybill_found s e = ap (λ (rows : Dict Shipment). update_found status rows s) e

  -- The rest of an update, behind the write of the shipment.
  pub rest : ℕ → Call ℕ
  rest order_id = advance order_id (order_target status) >> pure 200

  pub rest_state :
      (order_id : ℕ) (s : Desk) → (rest order_id s).1 ≡ (advance order_id (order_target status) s).1
  unfolding rest
  rest_state order_id s = from (advance order_id (order_target status) s)
    where
      from :
          (p : Result WebError (Unit {0}) × Desk)
          → (elim p.0 as (λ _. Result WebError ℕ × Desk) [
            | ok a ↦ (ok 200, p.1)
            | err e ↦ (err e, p.1)
          ]).1
            ≡ p.1
      from (ok a, u) = refl
      from (err e, u) = refl

  state : Result WebError ℕ × Desk → Desk
  state p = p.1

  pub update_same :
      (k : ℕ) (x : Shipment) (s : Desk)
      → same_status x.status status ≡ true
      → update_found status ((k, x) ∷ []) s ≡ rest x.order_id s
  unfolding update_found rest
  update_same k x s same = rw same refl

  pub update_other :
      (k : ℕ) (x : Shipment) (s : Desk)
      → same_status x.status status ≡ false
      → update_found status ((k, x) ∷ []) s ≡ rest x.order_id (save_status k x.status status s).1
  unfolding update_found rest save_status
  update_other k x s other = rw other refl

  -- A shipment that has the status: another update leaves what the first one leaves.
  updated_again :
      (k : ℕ) (x : Shipment) (s : Desk)
      → with_waybill waybill s.shipments ≡ (k, x) ∷ []
      → same_status x.status status ≡ true
      → (update_waybill waybill (some status) (rest x.order_id s).1).1 ≡ (rest x.order_id s).1
  unfolding state
  updated_again k x s found same =
      let (t, at, stays) = advance_lem x.order_id (order_target status) s in
      let d = record s { orders = t } in
      subst (λ (u : Desk). (update_waybill waybill (some status) u).1 ≡ u)
        (sym (rest_state x.order_id s ∙ at))
        (ap state (update_waybill_found d found ∙ update_same k x d same)
          ∙ (rest_state x.order_id d ∙ stays d refl))

  set_status_found :
      (k : ℕ) (x : Shipment) (rows : Dict Shipment)
      → with_waybill waybill rows ≡ (k, x) ∷ []
      → with_waybill waybill (set_status k status rows) ≡ (k, record x { status = status }) ∷ []
  unfolding set_status
  set_status_found k x rows found =
      with_waybill-set_status waybill k status rows
      ∙ (ap (set_status k status) found
          ∙ ap (λ (b : Bool). (k, record x { status = if b then status else x.status }) ∷ [])
              (same_key k))

  update_waybill-IsIdempotent : IsIdempotent (update_waybill waybill (some status))
  unfolding state update_found save_status
  update_waybill-IsIdempotent s = from (with_waybill waybill s.shipments) refl
    where
      again :
          {p : Result WebError ℕ × Desk}
          → update_waybill waybill (some status) s ≡ p
          → (update_waybill waybill (some status) p.1).1 ≡ p.1
          → (update_waybill waybill (some status) (update_waybill waybill (some status) s).1).1
            ≡ (update_waybill waybill (some status) s).1
      again e h =
          subst
            (λ (u : Result WebError ℕ × Desk). (update_waybill waybill (some status) u.1).1 ≡ u.1)
            (sym e) h

      from :
          (found : Dict Shipment)
          → with_waybill waybill s.shipments ≡ found
          → (update_waybill waybill (some status) (update_waybill waybill (some status) s).1).1
            ≡ (update_waybill waybill (some status) s).1
      from [] e = again (update_waybill_found s e) (ap state (update_waybill_found s e))
      from ((k, x) ∷ []) e = elim (Bool-cases (same_status x.status status)) [
        | inl same ↦
            again (update_waybill_found s e ∙ update_same k x s same) (updated_again k x s e same)
        | inr other ↦ again (update_waybill_found s e ∙ update_other k x s other) (
            updated_again k (record x { status = status }) (save_status k x.status status s).1
              (set_status_found k x s.shipments e) (same_status_refl status))
      ]
      from (x ∷ y ∷ rest) e = again (update_waybill_found s e) (ap state (update_waybill_found s e))

if-IsIdempotent :
    (b : Bool) (m n : Call ℕ) → IsIdempotent m → IsIdempotent n → IsIdempotent (if b then m else n)
if-IsIdempotent true m n h g = h
if-IsIdempotent false m n h g = g

update_mapped-IsIdempotent :
    (waybill : String) (o : Option ShipmentStatus) → IsIdempotent (update_waybill waybill o)
unfolding update_waybill
update_mapped-IsIdempotent waybill none s = refl
update_mapped-IsIdempotent waybill (some status) s = update_waybill-IsIdempotent waybill status s

by_fields-IsIdempotent : (env : Env) (p : Parsed) → IsIdempotent (by_fields env p)
unfolding by_fields
by_fields-IsIdempotent env malformed s = refl
by_fields-IsIdempotent env not_object s = refl
by_fields-IsIdempotent env (fields waybill status) s =
    if-IsIdempotent (str_eq (env.strip waybill) "" || str_eq (normalized env status) "") (pure 400)
      (update_waybill (env.strip waybill) (courier_status (normalized env status))) (λ _. refl)
      (update_mapped-IsIdempotent (env.strip waybill) (courier_status (normalized env status))) s

-- A webhook call that is delivered again, whatever it is and whatever the first one was answered, an
-- error included: neither the shipments, nor the orders, nor the pushes change once more.
pub courier_webhook_again :
    (env : Env) (req : WebRequest) (s : Desk)
    → (courier_webhook env req (courier_webhook env req s).1).1 ≡ (courier_webhook env req s).1
unfolding courier_webhook
courier_webhook_again env req s =
    if-IsIdempotent (signature_valid env req) (by_fields env (env.loads req.body)) (pure 400)
      (by_fields-IsIdempotent env (env.loads req.body)) (λ _. refl) s
