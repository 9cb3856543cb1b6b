-- ===== src/Inventory/Adjust/Refunds.antt =====
-- A refund never returns more units of an order than the order was sold.
use tip_metro_drip_ecommerce.Base.{
  ℕ, ℤ, pos, ◌+ℤ◌, ◌≤ℤ◌, int_laws, +ℤ_assoc, ◌≡◌, refl, sym, subst, Bool, true, ◌&&◌, Option, none,
  some, insert, Dict, String, List, [], ◌∷◌, ◌++◌, Bool-cases, inl, inr, arith, ==_self, ==→eq,
  if◌then◌else◌, ◌==◌, Value,
}
use tip_metro_drip_ecommerce.Base.Action.{ok, pure, gets, atomic, ◌>>=◌}
use tip_metro_drip_ecommerce.Inventory.{
  StockRecord, MovementReason, return, StockMovement, Ledger, create_movement,
}
use tip_metro_drip_ecommerce.Inventory.Provider.{
  invalid_stock_adjustment, Line, Env, sorted, idempotency_key, fingerprint, get_stock, same_order,
}
use tip_metro_drip_ecommerce.Base.Keeps.{Keeps, atomic-Keeps_at, bind-Keeps_from, bind-Keeps}
use tip_metro_drip_ecommerce.Inventory.Provider.Steps.{guarded-Keeps, get_stock_only_reads}
use tip_metro_drip_ecommerce.Inventory.Adjust.{
  is_zero, is_sale, is_return, adjustment_args, move_stock, adjust_stock, total_moved,
  return_quantity, return_units, restore_line, restore_each, restore_order_stock,
}
use tip_metro_drip_ecommerce.Inventory.Adjust.Invariants.{
  movement, move_stock_cases, recounted, adjustment_args_only_checks,
}

-- For every SKU the movements of the order balance at or below zero: no more has come back by
-- `return` movements than has gone out by `sale` movements.
pub record IsCovered (o : Option ℕ) (s : Ledger) : Type 0 where
  pub at :
      (v : ℕ)
      → total_moved v o is_return s.movements +ℤ total_moved v o is_sale s.movements ≤ℤ pos 0

abbrev counts : ℕ → Option ℕ → (MovementReason → Bool) → StockMovement → Bool
counts v o why m = m.variant_id == v && same_order m.ref_order_id o && why m.reason

total_moved-append :
    (v : ℕ) (o : Option ℕ) (why : MovementReason → Bool) (ms : List StockMovement)
    (m : StockMovement)
    → total_moved v o why (ms ++ m ∷ [])
      ≡ (if counts v o why m then total_moved v o why ms +ℤ m.delta else total_moved v o why ms)
unfolding total_moved
total_moved-append v o why [] m = elim (Bool-cases (counts v o why m)) [
  | inl yes_ ↦ rw yes_ (omega int_laws)
  | inr no_ ↦ rw no_ refl
]
total_moved-append v o why (x ∷ xs) m =
    let ih = total_moved-append v o why xs m in
    elim (Bool-cases (counts v o why m)) [
      | inl last ↦ elim (Bool-cases (counts v o why x)) [
        | inl first ↦
            rw (last, first, ih, last) (sym (+ℤ_assoc x.delta (total_moved v o why xs) m.delta))
        | inr first ↦ rw (last, first, ih, last) refl
      ]
      | inr last ↦ elim (Bool-cases (counts v o why x)) [
        | inl first ↦ rw (last, first, ih, last) refl
        | inr first ↦ rw (last, first, ih, last) refl
      ]
    ]

same_order_self : (o : Option ℕ) → same_order o o ≡ true
same_order_self none = refl
same_order_self (some n) = ground arith

-- The computed quantity closes the balance at most.
return_quantity_le :
    (o : Option ℕ) (l : Line) (ms : List StockMovement)
    → total_moved l.variant_id o is_return ms +ℤ total_moved l.variant_id o is_sale ms ≤ℤ pos 0
    → (total_moved l.variant_id o is_return ms +ℤ return_quantity o l ms)
        +ℤ total_moved l.variant_id o is_sale ms
      ≤ℤ pos 0
unfolding return_quantity
return_quantity_le o l ms h = grind int_laws

closing :
    (k : ℕ) (l : Line) (q : ℤ) (s : Ledger)
    → q ≡ return_quantity (some k) l s.movements
    → total_moved l.variant_id (some k) is_return s.movements
        +ℤ total_moved l.variant_id (some k) is_sale s.movements
      ≤ℤ pos 0
    → total_moved l.variant_id
          (some k)
          is_return
          (s.movements ++ movement l.variant_id q return (some k) ∷ [])
        +ℤ total_moved l.variant_id
            (some k)
            is_sale
            (s.movements ++ movement l.variant_id q return (some k) ∷ [])
      ≤ℤ pos 0
closing k l q s e h =
    rw
      (
        total_moved-append l.variant_id (some k) is_return s.movements
            (movement l.variant_id q return (some k)),
        total_moved-append l.variant_id (some k) is_sale s.movements
            (movement l.variant_id q return (some k)),
        ==_self l.variant_id,
        ==_self k,
        e,
      )
      (return_quantity_le (some k) l s.movements h)

-- A `return` movement of the computed quantity for one line.
IsCovered-return :
    (k : ℕ) (l : Line) (q : ℤ) (s : Ledger) (rows : Dict StockRecord)
    → q ≡ return_quantity (some k) l s.movements
    → IsCovered (some k) s
    → IsCovered
        (some k)
        (create_movement (movement l.variant_id q return (some k)) (record s { stock = rows }))
IsCovered-return k l q s rows e h = record {
  at = λ v. elim (Bool-cases (l.variant_id == v)) [
    | inl here ↦
        subst
          (λ w.
            total_moved w (some k) is_return
                (s.movements ++ movement l.variant_id q return (some k) ∷ [])
              +ℤ total_moved w (some k) is_sale
                  (s.movements ++ movement l.variant_id q return (some k) ∷ [])
            ≤ℤ pos 0)
          (==→eq l.variant_id v here) (closing k l q s e (h.at l.variant_id))
    | inr apart ↦
        rw
          (
            total_moved-append v (some k) is_return s.movements
                (movement l.variant_id q return (some k)),
            total_moved-append v (some k) is_sale s.movements
                (movement l.variant_id q return (some k)),
            apart,
          )
          (h.at v)
  ];
}

return_args :
    (q d : ℤ) (why : MovementReason) (s : Ledger)
    → (adjustment_args (Value.int q) "return" s).0 ≡ ok (d, why)
    → (d ≡ q) × (why ≡ return)
unfolding adjustment_args
return_args q d why s e = ground arith

IsCovered-move_stock :
    (k : ℕ) (l : Line) (q : ℤ) (s : Ledger)
    → q ≡ return_quantity (some k) l s.movements
    → IsCovered (some k) s
    → IsCovered (some k) (move_stock l.variant_id q return (some k) s).1
IsCovered-move_stock k l q s e h = elim (move_stock_cases l.variant_id q return (some k) s) [
  | inl (x, eq) ↦ rw eq h
  | inr (stock, found, enough, eq) ↦
      rw eq (IsCovered-return k l q s (insert l.variant_id (recounted q stock) s.stock) e h)
]

IsCovered-adjust :
    (k : ℕ) (l : Line) (q : ℤ) (s : Ledger)
    → q ≡ return_quantity (some k) l s.movements
    → IsCovered (some k) s
    → IsCovered (some k) (adjust_stock l.variant_id (Value.int q) "return" (some k) s).1
unfolding adjust_stock
IsCovered-adjust k l q s e h =
    bind-Keeps_from (IsCovered (some k)) (adjustment_args (Value.int q) "return")
      (λ (d, why). atomic (move_stock l.variant_id d why (some k))) s
      (rw (adjustment_args_only_checks (Value.int q) "return" s) h)
      (λ (d, why) args.
        let (same_d, same_why) = return_args q d why s args in
        subst (λ u. IsCovered (some k) (atomic (move_stock l.variant_id d why (some k)) u).1)
          (sym (adjustment_args_only_checks (Value.int q) "return" s))
          (subst (λ w. IsCovered (some k) (atomic (move_stock l.variant_id d w (some k)) s).1)
            (sym same_why)
            (subst
              (λ x. IsCovered (some k) (atomic (move_stock l.variant_id x return (some k)) s).1)
              (sym same_d)
              (atomic-Keeps_at (IsCovered (some k)) (move_stock l.variant_id q return (some k)) s h
                (IsCovered-move_stock k l q s e h)))))

IsCovered-return_units :
    (k : ℕ) (l : Line) (q : ℤ) (s : Ledger)
    → q ≡ return_quantity (some k) l s.movements
    → IsCovered (some k) s
    → IsCovered (some k) (return_units k l.variant_id q s).1
unfolding return_units
IsCovered-return_units k l q s e h = elim (Bool-cases (is_zero q)) [
  | inl nothing ↦ rw nothing h
  | inr units_left ↦ rw units_left (
      bind-Keeps_from (IsCovered (some k))
        (adjust_stock l.variant_id (Value.int q) "return" (some k)) (λ _. pure tt) s
        (IsCovered-adjust k l q s e h) (λ _ _. IsCovered-adjust k l q s e h))
]

IsCovered-restore_line : (k : ℕ) (l : Line) → Keeps (IsCovered (some k)) (restore_line k l)
unfolding restore_line
IsCovered-restore_line k l =
    bind-Keeps (IsCovered (some k)) (get_stock l.variant_id)
      (λ _. gets (λ s. return_quantity (some k) l s.movements) >>= return_units k l.variant_id)
      (λ s h. rw (get_stock_only_reads l.variant_id s) h)
      (λ _ s h. IsCovered-return_units k l (return_quantity (some k) l s.movements) s refl h)

IsCovered-restore_each : (k : ℕ) (ls : List Line) → Keeps (IsCovered (some k)) (restore_each k ls)
unfolding restore_each
IsCovered-restore_each k [] s h = h
IsCovered-restore_each k (l ∷ ls) s h =
    bind-Keeps (IsCovered (some k)) (restore_line k l) (λ _. restore_each k ls)
      (IsCovered-restore_line k l) (λ _. IsCovered-restore_each k ls) s h

-- If no SKU of an order has come back in more units than the order was sold, then the same holds
-- after `restore_order_stock`, whatever lines are passed and whether it returns or raises.
pub restore_order_stock-IsCovered :
    (env : Env) (k : ℕ) (text : String) (lines : List Line)
    → Keeps (IsCovered (some k)) (restore_order_stock env k text lines)
unfolding restore_order_stock
restore_order_stock-IsCovered env k text lines =
    guarded-Keeps (IsCovered (some k)) (idempotency_key env "refund" text)
      (fingerprint env (sorted lines)) 200 invalid_stock_adjustment (λ _. tt)
      (restore_each k (sorted lines)) (λ r t h. record { at = h.at })
      (IsCovered-restore_each k (sorted lines))
