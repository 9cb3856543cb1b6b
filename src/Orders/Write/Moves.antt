-- ===== src/Orders/Write/Moves.antt =====
-- apps/orders/models.py: what `Order.transition_to` has done when it returns.
use tip_metro_drip_ecommerce.Base.{
  ℕ, ◌≡◌, refl, sym, ◌∙◌, String, true, false, not, Option, some, [], ◌∷◌, ◌++◌, lookup, arith, ap,
}
use tip_metro_drip_ecommerce.Base.Action.{
  ok, err, pure, or_raise, atomic, ◌>>=◌, ◌>>◌, modify, raise_if,
}
use tip_metro_drip_ecommerce.Base.Invert.{
  bind_ok, bind_err, bind_inv, or_raise_inv, raise_if_inv, atomic_inv, returned_state,
}
use tip_metro_drip_ecommerce.Base.Keeps.{atomic_ok, atomic_err}
use tip_metro_drip_ecommerce.Orders.{
  Columns, OrderStatus, text, order_status, allowed, Row, Instance, Table, illegal_transition,
  does_not_exist,
}
use tip_metro_drip_ecommerce.Orders.Write.{Call, put_row, transition_row, transition_to}

-- The table after a move, with the push.
abbrev pub moved : ℕ → Row → OrderStatus → Table → Table
moved k row target t =
    let u = put_row k (record row { status = target }) t in
    record u { pushes = u.pushes ++ (k, target) ∷ [] }

pub transition_to_inv :
    (o : Instance) (new_status : String) (t : Table) {a : Instance} {u : Table}
    → transition_to o new_status t ≡ (ok a, u)
    → (target : OrderStatus) × (row : Row) × (order_status new_status ≡ some target)
      × (lookup o.pk t.rows ≡ some row)
      × (allowed row.status target ≡ true)
      × (u ≡ moved o.pk row target t)
unfolding transition_to transition_row
transition_to_inv o new_status t {a} {u} e =
    let push =
      λ (target : OrderStatus) (t : Table). record t { pushes = t.pushes ++ (o.pk, target) ∷ [] } in
    let done =
      λ (target : OrderStatus). modify (push target) >> pure (record o { status = text target }) in
    let rest = λ (target : OrderStatus). atomic (transition_row o.pk target) >> done target in
    let (stored, e₁) =
      raise_if_inv o.adding illegal_transition
        (or_raise illegal_transition (order_status new_status) >>= rest) t e in
    let (target, named, e₂) = or_raise_inv (order_status new_status) illegal_transition rest t e₁ in
    let (x, w, row_moved, pushed) =
      bind_inv (atomic (transition_row o.pk target)) (λ _. done target) t e₂ in
    let (row, found, e₃) =
      or_raise_inv (lookup o.pk t.rows) does_not_exist
        (λ (row : Row).
          raise_if (not (allowed row.status target)) illegal_transition
          >> modify (put_row o.pk (record row { status = target })))
        t (atomic_inv (transition_row o.pk target) t row_moved) in
    let (legal, e₄) =
      raise_if_inv (not (allowed row.status target)) illegal_transition
        (modify (put_row o.pk (record row { status = target }))) t e₃ in
    (
      target,
      row,
      named,
      found,
      ground arith,
      sym (returned_state pushed) ∙ ap (push target) (sym (returned_state e₄)),
    )

-- A legal move of an order that is stored returns.
pub transition_to_ok :
    (k : ℕ) (c : Columns) (held new_status : String) (target : OrderStatus) (row : Row) (t : Table)
    → order_status new_status ≡ some target
    → lookup k t.rows ≡ some row
    → allowed row.status target ≡ true
    → transition_to (record { adding = false; pk = k; columns = c; status = held }) new_status t ≡ (
      ok (record { adding = false; pk = k; columns = c; status = text target }),
      moved k row target t,
    )
unfolding transition_to transition_row
transition_to_ok k c held new_status target row t named found legal =
    ap (λ (x : Option OrderStatus). (or_raise illegal_transition x >>= rest) t) named
    ∙ bind_ok (atomic (transition_row k target)) (λ _. done target) t
        (atomic_ok (transition_row k target) t row_moves)
  where
    done : OrderStatus → Call Instance
    done target =
        modify (λ (t : Table). record t { pushes = t.pushes ++ (k, target) ∷ [] })
        >> pure (record { adding = false; pk = k; columns = c; status = text target })

    rest : OrderStatus → Call Instance
    rest target = atomic (transition_row k target) >> done target

    row_moves : transition_row k target t ≡ (ok tt, put_row k (record row { status = target }) t)
    row_moves =
        ap
          (λ (x : Option Row).
            (or_raise does_not_exist x >>= λ row.
            raise_if (not (allowed row.status target)) illegal_transition
            >> modify (put_row k (record row { status = target })))
              t)
          found
        ∙ rw legal refl

pub order_status-text : (target : OrderStatus) → order_status (text target) ≡ some target
unfolding order_status
order_status-text OrderStatus.pending = refl
order_status-text OrderStatus.paid = refl
order_status-text OrderStatus.packed = refl
order_status-text OrderStatus.shipped = refl
order_status-text OrderStatus.delivered = refl
order_status-text OrderStatus.cancelled = refl
order_status-text OrderStatus.refunded = refl

-- A move that is not allowed is refused, and the table stays.
pub transition_to_refused :
    (k : ℕ) (target : OrderStatus) (row : Row) (t : Table)
    → lookup k t.rows ≡ some row
    → allowed row.status target ≡ false
    → transition_to
        (record { adding = false; pk = k; columns = row.columns; status = text row.status })
        (text target)
        t
      ≡ (err illegal_transition, t)
unfolding transition_to transition_row
transition_to_refused k target row t found illegal =
    ap (λ (x : Option OrderStatus). (or_raise illegal_transition x >>= rest) t)
      (order_status-text target)
    ∙ bind_err (atomic (transition_row k target)) (λ _. done target) t
        (atomic_err (transition_row k target) t row_stays)
  where
    done : OrderStatus → Call Instance
    done target =
        modify (λ (t : Table). record t { pushes = t.pushes ++ (k, target) ∷ [] })
        >> pure (record { adding = false; pk = k; columns = row.columns; status = text target })

    rest : OrderStatus → Call Instance
    rest target = atomic (transition_row k target) >> done target

    row_stays : transition_row k target t ≡ (err illegal_transition, t)
    row_stays =
        ap
          (λ (x : Option Row).
            (or_raise does_not_exist x >>= λ row.
            raise_if (not (allowed row.status target)) illegal_transition
            >> modify (put_row k (record row { status = target })))
              t)
          found
        ∙ rw illegal refl
