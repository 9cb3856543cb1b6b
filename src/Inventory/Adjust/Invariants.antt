-- ===== src/Inventory/Adjust/Invariants.antt =====
-- Stock adjustments and refunds keep every invariant that their writes keep, whether they return or raise.
use tip_metro_drip_ecommerce.Base.{
  ℕ, ℤ, pos, pos_part, ◌+ℤ◌, ◌≤ℤ◌, ◌≡◌, false, Option, some, lookup, String, List, [], ◌∷◌,
  Option-cases, Bool-cases, inl, inr, ◌⊎◌, arith, ltb_ℤ, Value,
}
use tip_metro_drip_ecommerce.Base.Action.{ok, err, pure, gets, atomic, ◌>>=◌}
use tip_metro_drip_ecommerce.Inventory.{
  StockRecord, MovementReason, StockMovement, Ledger, save_stock, create_movement,
}
use tip_metro_drip_ecommerce.Inventory.Provider.{
  StockError, does_not_exist, invalid_stock_adjustment, Line, Env, sorted, idempotency_key,
  fingerprint, get_stock,
}
use tip_metro_drip_ecommerce.Inventory.Stable.{IsStable}
use tip_metro_drip_ecommerce.Base.Keeps.{Keeps, atomic-Keeps, bind-Keeps}
use tip_metro_drip_ecommerce.Inventory.Provider.Steps.{guarded-Keeps, get_stock_only_reads}
use tip_metro_drip_ecommerce.Inventory.Adjust.{
  is_zero, adjustment_args, move_stock, adjust_stock, return_quantity, return_units, restore_line,
  restore_each, restore_order_stock,
}

abbrev pub recounted : ℤ → StockRecord → StockRecord
recounted delta stock = record stock { qty_on_hand = pos_part (pos stock.qty_on_hand +ℤ delta) }

abbrev pub movement : ℕ → ℤ → MovementReason → Option ℕ → StockMovement
movement v delta reason o = record {
  variant_id = v;
  delta = delta;
  reason = reason;
  ref_order_id = o;
}

fits : (n r : ℕ) (d : ℤ) → ltb_ℤ (pos n +ℤ d) (pos r) ≡ false → pos r ≤ℤ pos n +ℤ d
unfolding ◌+ℤ◌
fits n r d h = ground arith

pub move_stock_cases :
    (v : ℕ) (d : ℤ) (why : MovementReason) (o : Option ℕ) (s : Ledger)
    → ((x : StockError) × (move_stock v d why o s ≡ (err x, s)))
      ⊎ ((stock : StockRecord) × (lookup v s.stock ≡ some stock)
          × (pos stock.qty_reserved ≤ℤ pos stock.qty_on_hand +ℤ d)
          × (move_stock v d why o s ≡ (
            ok (recounted d stock),
            create_movement (movement v d why o) (save_stock v (recounted d stock) s),
          )))
unfolding move_stock
move_stock_cases v d why o s = elim (Option-cases (lookup v s.stock)) [
  | inl missing ↦ inl (does_not_exist, ground arith)
  | inr (stock, e) ↦
      elim (Bool-cases (ltb_ℤ (pos stock.qty_on_hand +ℤ d) (pos stock.qty_reserved))) [
        | inl short ↦ inl (invalid_stock_adjustment, ground arith)
        | inr covers ↦
            inr (stock, e, fits stock.qty_on_hand stock.qty_reserved d covers, ground arith)
      ]
]

-- The checks on the arguments write nothing.
pub adjustment_args_only_checks :
    (delta : Value) (reason : String) (s : Ledger) → (adjustment_args delta reason s).1 ≡ s
unfolding adjustment_args
adjustment_args_only_checks delta reason s = ground arith

module _ {P : Ledger → Type 0} (stable : IsStable P) where
  pub adjust_stock-Keeps :
      (v : ℕ) (delta : Value) (reason : String) (o : Option ℕ)
      → Keeps P (adjust_stock v delta reason o)
  unfolding adjust_stock
  adjust_stock-Keeps v delta reason o =
      bind-Keeps P (adjustment_args delta reason) (λ (d, why). atomic (move_stock v d why o))
        (λ s h. rw (adjustment_args_only_checks delta reason s) h)
        (λ (d, why). atomic-Keeps P (move_stock v d why o) (stable.move_stock v d why o))

  return_units-Keeps : (order_id v : ℕ) (q : ℤ) → Keeps P (return_units order_id v q)
  unfolding return_units
  return_units-Keeps k v q s h = elim (Bool-cases (is_zero q)) [
    | inl nothing ↦ rw nothing h
    | inr some_left ↦ rw some_left (
        bind-Keeps P (adjust_stock v (Value.int q) "return" (some k)) (λ _. pure tt)
          (adjust_stock-Keeps v (Value.int q) "return" (some k)) (λ _ _ h'. h') s h)
  ]

  restore_line-Keeps : (order_id : ℕ) (l : Line) → Keeps P (restore_line order_id l)
  unfolding restore_line
  restore_line-Keeps k l =
      bind-Keeps P (get_stock l.variant_id)
        (λ _. gets (λ s. return_quantity (some k) l s.movements) >>= return_units k l.variant_id)
        (λ s h. rw (get_stock_only_reads l.variant_id s) h)
        (λ _ s. return_units-Keeps k l.variant_id (return_quantity (some k) l s.movements) s)

  pub restore_each-Keeps : (order_id : ℕ) (ls : List Line) → Keeps P (restore_each order_id ls)
  unfolding restore_each
  restore_each-Keeps k [] s h = h
  restore_each-Keeps k (l ∷ ls) s h =
      bind-Keeps P (restore_line k l) (λ _. restore_each k ls) (restore_line-Keeps k l)
        (λ _. restore_each-Keeps k ls) s h

  pub restore_order_stock-Keeps :
      (env : Env) (order_id : ℕ) (order_text : String) (lines : List Line)
      → Keeps P (restore_order_stock env order_id order_text lines)
  unfolding restore_order_stock
  restore_order_stock-Keeps env k text lines =
      guarded-Keeps P (idempotency_key env "refund" text) (fingerprint env (sorted lines)) 200
        invalid_stock_adjustment (λ _. tt) (restore_each k (sorted lines)) stable.create_key
        (restore_each-Keeps k (sorted lines))
