-- ===== src/Orders/Write/Lifecycle.antt =====
-- Which statuses an order goes through, however the rows are written (Hard Invariant 5).
use tip_metro_drip_ecommerce.Base.{
  ℕ, ◌≡◌, refl, String, Bool, true, false, not, Option, none, some, List, [], ◌∷◌, ◌++◌, Dict,
  lookup, insert, str_eq, ◌==◌, if◌then◌else◌, lookup-insert, arith, ==→eq, Option-cases,
  Bool-cases, inl, inr,
}
use tip_metro_drip_ecommerce.Base.Action.{
  pure, gets, or_raise, atomic, ◌>>=◌, ◌>>◌, modify, raise_if,
}
use tip_metro_drip_ecommerce.Base.Keeps.{
  Keeps, atomic-Keeps, bind-Keeps, raise_if-Keeps, or_raise-Keeps,
}
use tip_metro_drip_ecommerce.Orders.{
  OrderStatus, text, order_status, allowed, Columns, Row, Instance, Table, illegal_transition,
  does_not_exist,
}
use tip_metro_drip_ecommerce.Orders.Write.{
  Call, put_row, update_columns, UpdateFields, everything, fields, locked_save, save_existing,
  transition_row, transition_to, update_each, bulk_update,
}

-- Zero or more legal edges.
pub data Route (a : OrderStatus) : OrderStatus → Type 0 where
  stay : Route a a
  go : {b c : OrderStatus} → Route a b → allowed b c ≡ true → Route a c

pub Route-append : {a b c : OrderStatus} → Route a b → Route b c → Route a c
Route-append p stay = p
Route-append p (go q e) = go (Route-append p q) e

abbrev pub status_in : ℕ → Dict Row → Option OrderStatus
status_in k d = elim (lookup k d) [ none ↦ none | some r ↦ some r.status ]

abbrev pub status_at : ℕ → Table → Option OrderStatus
status_at k t = status_in k t.rows

-- An order of the first table is still there in the second, and has only taken legal edges.
pub record Follows (k : ℕ) (t u : Table) : Type 0 where
  pub at :
      (a : OrderStatus)
      → status_at k t ≡ some a
      → (b : OrderStatus) × (status_at k u ≡ some b) × Route a b

pub Follows-refl : (k : ℕ) (t : Table) → Follows k t t
Follows-refl k t = record { at = λ a e. (a, e, stay) }

-- A write that leaves the status alone.
pub unmoved :
    {k : ℕ} {t : Table} (u v : Table)
    → status_at k v ≡ status_at k u
    → Follows k t u
    → Follows k t v
unmoved u v e f = record { at = λ a h. let (b, at_b, p) = f.at a h in (b, rw e at_b, p) }

pub status_in-insert :
    (k j : ℕ) (r : Row) (d : Dict Row)
    → status_in k (insert j r d) ≡ (if j == k then some r.status else status_in k d)
status_in-insert k j r d = ground (arith, lookup-insert j k r d)

same :
    (k j : ℕ) (change : Columns → Columns) (u : Table)
    → status_at k (update_columns j change u).1 ≡ status_at k u
unfolding update_columns
same k j change u = elim (Option-cases (lookup j u.rows)) [
  | inl missing ↦ ground arith
  | inr (row, e) ↦
      ground (arith, status_in-insert k j (record row { columns = change row.columns }) u.rows)
]

transition_missing :
    (j : ℕ) (target : OrderStatus) (u : Table)
    → lookup j u.rows ≡ none
    → (transition_row j target u).1 ≡ u
unfolding transition_row
transition_missing j target u e = ground arith

transition_illegal :
    (j : ℕ) (target : OrderStatus) (u : Table) (row : Row)
    → lookup j u.rows ≡ some row
    → allowed row.status target ≡ false
    → (transition_row j target u).1 ≡ u
unfolding transition_row
transition_illegal j target u row e h = ground arith

transition_done :
    (j : ℕ) (target : OrderStatus) (u : Table) (row : Row)
    → lookup j u.rows ≡ some row
    → allowed row.status target ≡ true
    → (transition_row j target u).1 ≡ put_row j (record row { status = target }) u
unfolding transition_row
transition_done j target u row e h = ground arith

edge :
    (k j : ℕ) (target : OrderStatus) (u : Table) (row : Row) (b : OrderStatus)
    → lookup j u.rows ≡ some row
    → allowed row.status target ≡ true
    → status_at k u ≡ some b
    → j ≡ k
    → allowed b target ≡ true
edge k j target u row b e legal at_b same_key = ground arith

moved_on :
    (k j : ℕ) (target : OrderStatus) (u : Table) (row : Row) (a b : OrderStatus)
    → lookup j u.rows ≡ some row
    → allowed row.status target ≡ true
    → status_at k u ≡ some b
    → Route a b
    → (c : OrderStatus) × (status_at k (put_row j (record row { status = target }) u) ≡ some c)
      × Route a c
moved_on k j target u row a b e legal at_b p = elim (Bool-cases (j == k)) [
  | inl here ↦ (
    target,
    ground (arith, status_in-insert k j (record row { status = target }) u.rows),
    go p (edge k j target u row b e legal at_b (==→eq j k here)),
  )
  | inr apart ↦ (b, ground (arith, status_in-insert k j (record row { status = target }) u.rows), p)
]

module _ (k : ℕ) (t : Table) where
  pub update_columns-Follows :
      (j : ℕ) (change : Columns → Columns) → Keeps (Follows k t) (update_columns j change)
  unfolding update_columns
  update_columns-Follows j change u h =
      unmoved u (update_columns j change u).1 (same k j change u) h

  transition_row-Follows :
      (j : ℕ) (target : OrderStatus) → Keeps (Follows k t) (transition_row j target)
  transition_row-Follows j target u h = elim (Option-cases (lookup j u.rows)) [
    | inl missing ↦ rw (transition_missing j target u missing) h
    | inr (row, e) ↦ elim (Bool-cases (allowed row.status target)) [
      | inr illegal ↦ rw (transition_illegal j target u row e illegal) h
      | inl legal ↦ rw (transition_done j target u row e legal) (record {
        at = λ a f. let (b, at_b, p) = h.at a f in moved_on k j target u row a b e legal at_b p;
      })
    ]
  ]

  locked_save-Follows :
      (o : Instance) (change : Columns → Columns) → Keeps (Follows k t) (locked_save o change)
  unfolding locked_save
  locked_save-Follows o change =
      let rest = λ (row : Row).
        raise_if (not (str_eq o.status (text row.status))) illegal_transition
        >> update_columns o.pk change in
      let block : Call (Unit {0}) =
        gets (λ t. lookup o.pk t.rows) >>= λ found. or_raise does_not_exist found >>= rest in
      atomic-Keeps (Follows k t) block λ u h.
        or_raise-Keeps (Follows k t) (lookup o.pk u.rows) does_not_exist rest u h λ row _.
          raise_if-Keeps (Follows k t) (not (str_eq o.status (text row.status))) illegal_transition
            (update_columns o.pk change) (update_columns-Follows o.pk change) u h

  pub save_existing-Follows :
      (o : Instance) (f : UpdateFields) → Keeps (Follows k t) (save_existing o f)
  unfolding save_existing
  save_existing-Follows o everything u h = locked_save-Follows o (λ _. o.columns) u h
  save_existing-Follows o (fields true pick) u h = locked_save-Follows o (λ c. pick c o.columns) u h
  save_existing-Follows o (fields false pick) u h =
      update_columns-Follows o.pk (λ c. pick c o.columns) u h

  pub transition_to-Follows :
      (o : Instance) (new_status : String) → Keeps (Follows k t) (transition_to o new_status)
  unfolding transition_to
  transition_to-Follows o s =
      let push = λ (target : OrderStatus).
        λ (t : Table). record t { pushes = t.pushes ++ (o.pk, target) ∷ [] } in
      let rest = λ (target : OrderStatus). atomic (transition_row o.pk target) >>= λ _.
      modify (push target) >>= λ _. pure (record o { status = text target }) in
      raise_if-Keeps (Follows k t) o.adding illegal_transition
        (or_raise illegal_transition (order_status s) >>= rest)
        (λ u h.
          or_raise-Keeps (Follows k t) (order_status s) illegal_transition rest u h (λ target _.
            bind-Keeps (Follows k t) (atomic (transition_row o.pk target))
              (λ _. modify (push target) >>= λ _. pure (record o { status = text target }))
              (atomic-Keeps (Follows k t) (transition_row o.pk target)
                (transition_row-Follows o.pk target))
              (λ _ v f. unmoved v (push target v) refl f) u h))

  update_each-Follows :
      (change : ℕ → Columns → Columns) (ks : List ℕ) → Keeps (Follows k t) (update_each change ks)
  unfolding update_each
  update_each-Follows change [] u h = h
  update_each-Follows change (j ∷ ks) u h =
      bind-Keeps (Follows k t) (update_columns j (change j)) (λ _. update_each change ks)
        (update_columns-Follows j (change j)) (λ _. update_each-Follows change ks) u h

  pub bulk_update-Follows :
      (names_status : Bool) (change : ℕ → Columns → Columns) (ks : List ℕ)
      → Keeps (Follows k t) (bulk_update names_status change ks)
  unfolding bulk_update
  bulk_update-Follows names_status change ks =
      raise_if-Keeps (Follows k t) names_status illegal_transition (atomic (update_each change ks))
        (atomic-Keeps (Follows k t) (update_each change ks) (update_each-Follows change ks))
