-- ===== src/Inventory/Adjust.antt =====
-- `adjust_stock` and `restore_order_stock` of apps/inventory/providers/local.py
pub mod Invariants
pub mod Refunds
use tip_metro_drip_ecommerce.Base.{
  ℕ, ℤ, pos, negsuc, ◌+ℤ◌, ◌-ℤ◌, pos_part, ltb_ℤ, String, Bool, true, false, ◌&&◌, Option, some,
  List, [], ◌∷◌, ◌==◌, if◌then◌else◌, Value, as_int,
}
use tip_metro_drip_ecommerce.Base.Action.{
  pure, gets, or_raise, atomic, ◌>>=◌, ◌>>◌, modify, raise_if,
}
use tip_metro_drip_ecommerce.Inventory.{
  StockRecord, MovementReason, sale, restock, adjustment, return, movement_reason, StockMovement,
  find_key, save_stock, create_movement,
}
use tip_metro_drip_ecommerce.Inventory.Provider.{
  value_error, invalid_stock_adjustment, Call, Line, Env, sorted, idempotency_key, fingerprint,
  get_stock, guarded, same_order,
}

abbrev pub is_sale : MovementReason → Bool
is_sale sale = true
is_sale restock = false
is_sale adjustment = false
is_sale return = false

abbrev pub is_return : MovementReason → Bool
is_return sale = false
is_return restock = false
is_return adjustment = false
is_return return = true

-- `reason in (MovementReason.RESTOCK, MovementReason.RETURN)`
abbrev pub is_inward : MovementReason → Bool
is_inward sale = false
is_inward restock = true
is_inward adjustment = false
is_inward return = true

abbrev pub is_zero : ℤ → Bool
is_zero (pos n) = n == 0
is_zero (negsuc n) = false

-- The checks of `adjust_stock` on its arguments, before any row is read.
pub adjustment_args : Value → String → Call (ℤ × MovementReason)
unfolding movement_reason
adjustment_args delta reason = do
  d ← or_raise invalid_stock_adjustment (as_int delta)
  raise_if (is_zero d) invalid_stock_adjustment
  why ← or_raise value_error (movement_reason reason)
  raise_if (is_sale why) invalid_stock_adjustment
  raise_if (is_inward why && ltb_ℤ d (pos 0)) invalid_stock_adjustment
  pure (d, why)

-- The transaction of `adjust_stock`: the counter and its movement together.
unfoldable pub move_stock : ℕ → ℤ → MovementReason → Option ℕ → Call StockRecord
unfolding get_stock
move_stock v delta reason order_id = do
  stock ← get_stock v
  raise_if (ltb_ℤ (pos stock.qty_on_hand +ℤ delta) (pos stock.qty_reserved))
      invalid_stock_adjustment
  modify (save_stock v (record stock { qty_on_hand = pos_part (pos stock.qty_on_hand +ℤ delta) }))
  modify (
      create_movement
        (record { variant_id = v; delta = delta; reason = reason; ref_order_id = order_id }))
  pure (record stock { qty_on_hand = pos_part (pos stock.qty_on_hand +ℤ delta) })

unfoldable pub adjust_stock : ℕ → Value → String → Option ℕ → Call StockRecord
unfolding adjustment_args move_stock
adjust_stock v delta reason order_id =
    adjustment_args delta reason >>= λ (d, why). atomic (move_stock v d why order_id)

-- `movements.filter(variant, order, reason).aggregate(Sum("delta"))["total"] or 0`
unfoldable pub total_moved : ℕ → Option ℕ → (MovementReason → Bool) → List StockMovement → ℤ
total_moved v o why [] = pos 0
total_moved v o why (m ∷ ms) =
    if m.variant_id == v && same_order m.ref_order_id o && why m.reason
    then m.delta +ℤ total_moved v o why ms
    else total_moved v o why ms

-- `min(line["qty"], max(0, sold - returned))`
pub return_quantity : Option ℕ → Line → List StockMovement → ℤ
unfolding total_moved
return_quantity o l ms =
    let sold_units = pos 0 -ℤ total_moved l.variant_id o is_sale ms in
    let left = sold_units -ℤ total_moved l.variant_id o is_return ms in
    let most = if ltb_ℤ left (pos 0) then pos 0 else left in
    if ltb_ℤ most l.qty then most else l.qty

-- `if quantity == 0: continue`
pub return_units : ℕ → ℕ → ℤ → Call (Unit {0})
return_units order_id v q =
    if is_zero q
    then pure tt
    else (adjust_stock v (Value.int q) "return" (some order_id) >> pure tt)

pub restore_line : ℕ → Line → Call (Unit {0})
unfolding return_quantity get_stock return_units
restore_line order_id l = do
  get_stock l.variant_id
  quantity ← gets (λ s. return_quantity (some order_id) l s.movements)
  return_units order_id l.variant_id quantity

pub restore_each : ℕ → List Line → Call (Unit {0})
unfolding restore_line
restore_each order_id [] = pure tt
restore_each order_id (l ∷ ls) = restore_line order_id l >> restore_each order_id ls

unfoldable pub restore_order_stock : Env → ℕ → String → List Line → Call (Unit {0})
unfolding restore_each guarded idempotency_key fingerprint
restore_order_stock env order_id order_text lines =
    let ordered = sorted lines in
    let key = idempotency_key env "refund" order_text in
    guarded key (fingerprint env ordered) 200 invalid_stock_adjustment (λ _. tt)
      (restore_each order_id ordered)
