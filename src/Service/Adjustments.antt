-- ===== src/Service/Adjustments.antt =====
-- services/inventory/api.py: `adjust_stock`.
use tip_metro_drip_ecommerce.Base.{
  ℕ, ℤ, pos, ◌+ℤ◌, ◌-ℤ◌, pos_part, ltb_ℤ, String, ◌&&◌, Option, none, some, List, lookup,
  if◌then◌else◌,
}
use tip_metro_drip_ecommerce.Base.Action.{
  Action, pure, gets, or_raise, ◌>>=◌, ◌>>◌, modify, raise_if,
}
use tip_metro_drip_ecommerce.Inventory.{
  StockRecord, available, MovementReason, movement_reason, StockMovement, save_stock,
  create_movement,
}
use tip_metro_drip_ecommerce.Inventory.Adjust.{is_sale, is_return, is_inward, is_zero, total_moved}
use tip_metro_drip_ecommerce.Service.{
  Body, adjust_response, adjust_request, HttpError, unknown_variant, invalid_delta, invalid_reason,
  would_break_reserved_invariant, Store, Response, Env, Block, guarded, respond,
}
use tip_metro_drip_ecommerce.Service.Reservations.{Work}

abbrev pub or_empty : Option String → String
or_empty none = ""
or_empty (some k) = k

-- The checks of the reason and of the sign of `delta`.
unfoldable pub adjustment_reason : ℤ → String → Work MovementReason
unfolding movement_reason
adjustment_reason delta reason = do
  raise_if (is_zero delta) invalid_delta
  why ← or_raise invalid_reason (movement_reason reason)
  raise_if (is_sale why) invalid_reason
  raise_if (is_inward why && ltb_ℤ delta (pos 0)) invalid_delta
  pure why

-- `min(delta, max(0, outstanding))` for the return of an order.
abbrev pub capped_delta : ℕ → ℤ → MovementReason → Option ℕ → List StockMovement → ℤ
capped_delta v delta why none ms = delta
capped_delta v delta why (some o) ms =
    let sold = pos 0 -ℤ total_moved v (some o) is_sale ms in
    let outstanding = sold -ℤ total_moved v (some o) is_return ms in
    let most = if ltb_ℤ outstanding (pos 0) then pos 0 else outstanding in
    if is_return why then (if ltb_ℤ most delta then most else delta) else delta

abbrev pub with_delta : ℤ → StockRecord → StockRecord
with_delta delta stock = record stock { qty_on_hand = pos_part (pos stock.qty_on_hand +ℤ delta) }

-- `if delta: db.add(StockMovement(…))`
abbrev pub add_movement : ℕ → ℤ → MovementReason → Option ℕ → Work (Unit {0})
add_movement v delta why ref =
    if is_zero delta
    then pure tt
    else modify (
        create_movement
          (record { variant_id = v; delta = delta; reason = why; ref_order_id = ref }))

-- The counter and its movement, for the quantity that was worked out.
unfoldable pub recount : ℕ → ℤ → MovementReason → Option ℕ → StockRecord → Work StockRecord
recount v delta why ref stock = do
  raise_if (ltb_ℤ (pos stock.qty_on_hand +ℤ delta) (pos stock.qty_reserved))
      would_break_reserved_invariant
  modify (save_stock v (with_delta delta stock))
  add_movement v delta why ref
  pure (with_delta delta stock)

unfoldable pub adjust : ℕ → ℤ → String → Option ℕ → Work StockRecord
unfolding adjustment_reason recount total_moved
adjust v delta reason ref = do
  why ← adjustment_reason delta reason
  stock ← or_raise unknown_variant (← gets (λ s. lookup v s.stock))
  quantity ← gets (λ s. capped_delta v delta why ref s.movements)
  recount v quantity why ref stock

abbrev pub adjusted : ℕ → StockRecord → Body
adjusted v r = adjust_response v r.qty_on_hand r.qty_reserved (available r)

unfoldable pub adjust_block :
    Env → ℕ → ℤ → String → String → Option ℕ → Option String → Block Response
unfolding adjust guarded available
adjust_block env v delta reason order_no ref key =
    guarded env "/v1/stock/adjustments" (or_empty key) (adjust_request v delta reason order_no ref)
      200 (adjust v delta reason ref) (adjusted v)

unfoldable pub adjust_stock :
    Env → ℕ → ℤ → String → String → Option ℕ → Option String → Action HttpError Store Response
unfolding adjust_block respond
adjust_stock env v delta reason order_no ref key =
    respond (λ _. 200) (adjust_block env v delta reason order_no ref key)
