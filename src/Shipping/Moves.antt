-- ===== src/Shipping/Moves.antt =====
-- apps/shipping/webhooks.py: the move of the order that an update of its shipment asks for.
use tip_metro_drip_ecommerce.Base.{
  ℕ, ◌≡◌, refl, ap, ◌∙◌, str_eq, true, false, Option, none, some, lookup, lookup-insert_self,
  Bool-cases, inl, inr, ◌⊎◌,
}
use tip_metro_drip_ecommerce.Base.Action.{Result, ok, err, or_raise, ◌>>=◌}
use package.text.Mathlib.TextPositions.{eq_refl}
use tip_metro_drip_ecommerce.Orders.{OrderStatus, text, allowed, Row, Table, does_not_exist}
use tip_metro_drip_ecommerce.Orders.Write.Moves.{
  moved, order_status-text, transition_to_ok, transition_to_refused,
}
use tip_metro_drip_ecommerce.Shipping.{Desk, WebError, order_error, or_logged, move_order, advance}

-- The order is there already, or must not go there.
abbrev pub IsSettled : OrderStatus → Row → Type 0
IsSettled target row =
    (str_eq (text row.status) (text target) ≡ true) ⊎ (allowed row.status target ≡ false)

move_order_stays :
    (k : ℕ) (target : OrderStatus) (row : Row) (s : Desk)
    → lookup k s.orders.rows ≡ some row
    → IsSettled target row
    → move_order k target row s ≡ (ok tt, s)
unfolding move_order
move_order_stays k target row s found (inl there) = rw there refl
move_order_stays k target row s found (inr illegal) =
    elim (Bool-cases (str_eq (text row.status) (text target))) [
      | inl there ↦ rw there refl
      | inr other ↦
          rw other (ap (or_logged s) (transition_to_refused k target row s.orders found illegal))
    ]

move_order_moves :
    (k : ℕ) (target : OrderStatus) (row : Row) (s : Desk)
    → lookup k s.orders.rows ≡ some row
    → str_eq (text row.status) (text target) ≡ false
    → allowed row.status target ≡ true
    → move_order k target row s ≡ (ok tt, record s { orders = moved k row target s.orders })
unfolding move_order
move_order_moves k target row s found other legal = rw other (
    ap (or_logged s) (
      transition_to_ok k row.columns (text row.status) (text target) target row s.orders
        (order_status-text target) found legal))

advance_missing :
    (k : ℕ) (target : OrderStatus) (s : Desk)
    → lookup k s.orders.rows ≡ none
    → advance k (some target) s ≡ (err (order_error does_not_exist), s)
unfolding advance
advance_missing k target s e =
    ap (λ (o : Option Row). (or_raise (order_error does_not_exist) o >>= move_order k target) s) e

advance_found :
    (k : ℕ) (target : OrderStatus) (row : Row) (s : Desk)
    → lookup k s.orders.rows ≡ some row
    → advance k (some target) s ≡ move_order k target row s
unfolding advance
advance_found k target row s e =
    ap (λ (o : Option Row). (or_raise (order_error does_not_exist) o >>= move_order k target) s) e

-- Once moved, an order stays.
advance_moved :
    (k : ℕ) (target : OrderStatus) (row : Row) (s : Desk)
    → lookup k s.orders.rows ≡ some (record row { status = target })
    → (advance k (some target) s).1 ≡ s
unfolding move_order
advance_moved k target row s e =
    ap (λ (p : Result WebError (Unit {0}) × Desk). p.1)
      (advance_found k target (record row { status = target }) s e)
    ∙ rw (eq_refl (text target)) refl

-- The orders after the second half of an update, and that a repetition leaves them.
pub advance_lem :
    (k : ℕ) (target : Option OrderStatus) (s : Desk)
    → (t : Table) × ((advance k target s).1 ≡ record s { orders = t })
      × ((u : Desk) → u.orders ≡ t → (advance k target u).1 ≡ u)
unfolding advance
advance_lem k none s = (s.orders, refl, λ u same. refl)
advance_lem k (some target) s = from (lookup k s.orders.rows) refl
  where
    Lem : Type 0
    Lem =
        (t : Table) × ((advance k (some target) s).1 ≡ record s { orders = t })
        × ((u : Desk) → u.orders ≡ t → (advance k (some target) u).1 ≡ u)

    state : Result WebError (Unit {0}) × Desk → Desk
    state p = p.1

    stays : (row : Row) → lookup k s.orders.rows ≡ some row → IsSettled target row → Lem
    stays row e settled = (
      s.orders,
      ap state (advance_found k target row s e ∙ move_order_stays k target row s e settled),
      λ u same.
          let found = ap (λ (t : Table). lookup k t.rows) same ∙ e in
          ap state
            (advance_found k target row u found ∙ move_order_stays k target row u found settled),
    )

    moves :
        (row : Row)
        → lookup k s.orders.rows ≡ some row
        → str_eq (text row.status) (text target) ≡ false
        → allowed row.status target ≡ true
        → Lem
    moves row e other legal = (
      moved k row target s.orders,
      ap state (advance_found k target row s e ∙ move_order_moves k target row s e other legal),
      λ u same. advance_moved k target row u (
          ap (λ (t : Table). lookup k t.rows) same
          ∙ lookup-insert_self k (record row { status = target }) s.orders.rows),
    )

    from : (o : Option Row) → lookup k s.orders.rows ≡ o → Lem
    from none e = (
      s.orders,
      ap state (advance_missing k target s e),
      λ u same.
          ap state (advance_missing k target u (ap (λ (t : Table). lookup k t.rows) same ∙ e)),
    )
    from (some row) e = elim (Bool-cases (str_eq (text row.status) (text target))) [
      | inl there ↦ stays row e (inl there)
      | inr other ↦ elim (Bool-cases (allowed row.status target)) [
        | inl legal ↦ moves row e other legal
        | inr illegal ↦ stays row e (inr illegal)
      ]
    ]

-- An order that is missing, is there or must not go there stays; any other moves.
abbrev pub Delivers : OrderStatus → ℕ → Table → Table → Type 0
Delivers target k s t =
    ((lookup k s.rows ≡ none) × (t ≡ s))
    ⊎ ((row : Row) × (lookup k s.rows ≡ some row)
        × ((IsSettled target row × (t ≡ s))
            ⊎ ((allowed row.status target ≡ true) × (t ≡ moved k row target s))))

-- The orders after the second half of an update.
pub advance_effect :
    (k : ℕ) (target : OrderStatus) (s : Desk)
    → (t : Table) × ((advance k (some target) s).1 ≡ record s { orders = t })
      × Delivers target k s.orders t
advance_effect k target s = from (lookup k s.orders.rows) refl
  where
    state : Result WebError (Unit {0}) × Desk → Desk
    state p = p.1

    stays :
        (row : Row)
        → lookup k s.orders.rows ≡ some row
        → IsSettled target row
        → (t : Table) × ((advance k (some target) s).1 ≡ record s { orders = t })
          × Delivers target k s.orders t
    stays row e settled = (
      s.orders,
      ap state (advance_found k target row s e ∙ move_order_stays k target row s e settled),
      inr (row, e, inl (settled, refl)),
    )

    from :
        (o : Option Row)
        → lookup k s.orders.rows ≡ o
        → (t : Table) × ((advance k (some target) s).1 ≡ record s { orders = t })
          × Delivers target k s.orders t
    from none e = (s.orders, ap state (advance_missing k target s e), inl (e, refl))
    from (some row) e = elim (Bool-cases (str_eq (text row.status) (text target))) [
      | inl there ↦ stays row e (inl there)
      | inr other ↦ elim (Bool-cases (allowed row.status target)) [
        | inl legal ↦ (
          moved k row target s.orders,
          ap state (advance_found k target row s e ∙ move_order_moves k target row s e other legal),
          inr (row, e, inr (legal, refl)),
        )
        | inr illegal ↦ stays row e (inr illegal)
      ]
    ]
