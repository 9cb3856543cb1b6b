-- ===== src/Orders/Write/Created.antt =====
-- Which orders a new instance, a bulk creation or a deletion leaves as they were.
use tip_metro_drip_ecommerce.Base.{
  ℕ, ◌≡◌, refl, ◌∙◌, String, Bool, false, not, ◌&&◌, ◌||◌, Option, none, some, List, [], ◌∷◌, ◌++◌,
  Dict, lookup, ◌==◌, if◌then◌else◌, arith, Bool-cases, inl, inr,
}
use tip_metro_drip_ecommerce.Base.Action.{pure, gets, atomic, ◌>>=◌, ◌>>◌, raise_if}
use tip_metro_drip_ecommerce.Base.Keeps.{Keeps, atomic-Keeps, bind-Keeps, raise_if-Keeps, if-Keeps}
use tip_metro_drip_ecommerce.Orders.{
  OrderStatus, pending, Columns, Row, Instance, Table, illegal_transition, reconciles,
}
use tip_metro_drip_ecommerce.Orders.Write.{
  Call, put_row, number_taken, insert_row, initial_status, UpdateFields, everything, fields, save,
  all_pending, insert_new, save_keyed, save_new, insert_fresh, Conflicts, refuse, ignore,
  update_conflicts, sets_status, conflicting, create_one, create_each, bulk_create,
}
use tip_metro_drip_ecommerce.Orders.Database.{
  insert_at, others, overwrite_row, delete_each, delete_rows,
}
use tip_metro_drip_ecommerce.Orders.Write.Lifecycle.{
  status_in, Follows, unmoved, status_in-insert, update_columns-Follows, save_existing-Follows,
}

status_in-append :
    (k j : ℕ) (r : Row) (d : Dict Row) (a : OrderStatus)
    → status_in k d ≡ some a
    → status_in k (d ++ (j, r) ∷ []) ≡ some a
status_in-append k j r [] a e = cc
status_in-append k j r ((i, y) ∷ d) a e = ground (arith, status_in-append k j r d a)

-- Whether a key is among these.
abbrev pub has : List ℕ → ℕ → Bool
has [] k = false
has (j ∷ js) k = j == k || has js k

status_in-others :
    (k j : ℕ) (d : Dict Row) → (j == k) ≡ false → status_in k (others j d) ≡ status_in k d
unfolding others
status_in-others k j [] e = refl
status_in-others k j ((i, r) ∷ d) e = ground (arith, status_in-others k j d e)

status_in-delete_each :
    (k : ℕ) (ks : List ℕ) (d : Dict Row)
    → has ks k ≡ false
    → status_in k (delete_each ks d) ≡ status_in k d
status_in-delete_each k [] d e = refl
status_in-delete_each k (j ∷ ks) d e =
    status_in-others k j (delete_each ks d) (ground arith)
    ∙ status_in-delete_each k ks d (ground arith)

initial_status_only_checks : (s : String) (u : Table) → (initial_status s u).1 ≡ u
unfolding initial_status
initial_status_only_checks s u = ground arith

module _ (k : ℕ) (t : Table) where
  insert_row-Follows : (c : Columns) (s : OrderStatus) → Keeps (Follows k t) (insert_row c s)
  unfolding insert_row
  insert_row-Follows c s u h =
      elim (Bool-cases (number_taken c.order_no u.rows || not (reconciles c))) [
        | inl refused ↦ rw refused h
        | inr fresh ↦ rw fresh (record {
          at = λ a e.
              let (b, at_b, p) = h.at a e in
              (
                b,
                status_in-append k u.next_pk (record { columns = c; status = s }) u.rows b at_b,
                p,
              );
        })
      ]

  insert_at-Follows :
      (j : ℕ) (c : Columns) (s : OrderStatus) → Keeps (Follows k t) (insert_at j c s)
  unfolding insert_at
  insert_at-Follows j c s u h =
      elim (Bool-cases (number_taken c.order_no u.rows || not (reconciles c))) [
        | inl refused ↦ rw refused h
        | inr fresh ↦ rw fresh (record {
          at = λ a e.
              let (b, at_b, p) = h.at a e in
              (b, status_in-append k j (record { columns = c; status = s }) u.rows b at_b, p);
        })
      ]

  -- A row of another key is written.
  overwrite_row-Follows :
      (j : ℕ) (new : Row) → (j == k) ≡ false → Keeps (Follows k t) (overwrite_row j new)
  unfolding overwrite_row
  overwrite_row-Follows j new apart u h =
      elim (Bool-cases
        (number_taken new.columns.order_no (others j u.rows) || not (reconciles new.columns))) [
          | inl refused ↦ rw refused h
          | inr fresh ↦
              rw fresh
                (unmoved u (put_row j new u) (status_in-insert k j new u.rows ∙ rw apart refl) h)
        ]

  pub delete_rows-Follows : (ks : List ℕ) → has ks k ≡ false → Keeps (Follows k t) (delete_rows ks)
  unfolding delete_rows
  delete_rows-Follows ks kept u h =
      unmoved u (delete_rows ks u).1 (status_in-delete_each k ks u.rows kept) h

  save_keyed-Follows :
      (o : Instance) (s : OrderStatus) (f : UpdateFields) (found : Option Row)
      → (o.pk == k) ≡ false
      → Keeps (Follows k t) (save_keyed o s f found)
  unfolding save_keyed
  save_keyed-Follows o s everything none apart u h = insert_at-Follows o.pk o.columns s u h
  save_keyed-Follows o s everything (some row) apart u h =
      overwrite_row-Follows o.pk (record { columns = o.columns; status = s }) apart u h
  save_keyed-Follows o s (fields names_status pick) none apart u h = h
  save_keyed-Follows o s (fields names_status pick) (some row) apart u h =
      overwrite_row-Follows o.pk
        (record {
          columns = pick row.columns o.columns;
          status = if names_status then s else row.status;
        })
        apart u h

  insert_new-Follows :
      (o : Instance) (s : OrderStatus) (f : UpdateFields) → Keeps (Follows k t) (insert_new o s f)
  unfolding insert_new
  insert_new-Follows o s everything u h =
      bind-Keeps (Follows k t) (insert_row o.columns s) (λ _. pure tt)
        (insert_row-Follows o.columns s) (λ _ _ h. h) u h
  insert_new-Follows o s (fields names_status pick) u h = h

  save_new-Follows :
      (o : Instance) (f : UpdateFields) (s : OrderStatus)
      → (o.pk == k) ≡ false
      → Keeps (Follows k t) (save_new o f s)
  unfolding save_new
  save_new-Follows o f s apart u h = elim (Bool-cases (o.pk == 0)) [
    | inl unkeyed ↦ rw unkeyed (insert_new-Follows o s f u h)
    | inr keyed ↦ rw keyed (save_keyed-Follows o s f (lookup o.pk u.rows) apart u h)
  ]

  pub save-Follows :
      (o : Instance) (f : UpdateFields)
      → (o.adding && o.pk == k) ≡ false
      → Keeps (Follows k t) (save o f)
  unfolding save
  save-Follows o f apart u h = elim (Bool-cases o.adding) [
    | inl new ↦ rw new (
        bind-Keeps (Follows k t) (initial_status o.status) (save_new o f)
          (λ u h. rw (initial_status_only_checks o.status u) h)
          (λ s. save_new-Follows o f s (ground arith)) u h)
    | inr stored ↦ rw stored (save_existing-Follows k t o f u h)
  ]

  insert_fresh-Follows : (o : Instance) → Keeps (Follows k t) (insert_fresh o)
  unfolding insert_fresh
  insert_fresh-Follows o u h = elim (Bool-cases (o.pk == 0)) [
    | inl unkeyed ↦ rw unkeyed (
        bind-Keeps (Follows k t) (insert_row o.columns pending) (λ _. pure tt)
          (insert_row-Follows o.columns pending) (λ _ _ h. h) u h)
    | inr keyed ↦ rw keyed (insert_at-Follows o.pk o.columns pending u h)
  ]

  create_one-Follows :
      (conflicts : Conflicts) (o : Instance) (found : Option ℕ)
      → Keeps (Follows k t) (create_one conflicts o found)
  unfolding create_one
  create_one-Follows refuse o none u h = insert_fresh-Follows o u h
  create_one-Follows ignore o none u h =
      if-Keeps (Follows k t) (reconciles o.columns) (insert_fresh o) (pure tt)
        (insert_fresh-Follows o) (λ _ h. h) u h
  create_one-Follows (update_conflicts named pick) o none u h = insert_fresh-Follows o u h
  create_one-Follows refuse o (some j) u h = h
  create_one-Follows ignore o (some j) u h = h
  create_one-Follows (update_conflicts named pick) o (some j) u h =
      update_columns-Follows k t j (λ c. pick c o.columns) u h

  create_each-Follows :
      (conflicts : Conflicts) (os : List Instance) → Keeps (Follows k t) (create_each conflicts os)
  unfolding create_each
  create_each-Follows conflicts [] u h = h
  create_each-Follows conflicts (o ∷ os) u h =
      let one : Call (Unit {0}) = gets (λ t. conflicting o t.rows) >>= create_one conflicts o in
      bind-Keeps (Follows k t) one (λ _. create_each conflicts os)
        (λ u h. create_one-Follows conflicts o (conflicting o u.rows) u h)
        (λ _. create_each-Follows conflicts os) u h

  pub bulk_create-Follows :
      (conflicts : Conflicts) (os : List Instance) → Keeps (Follows k t) (bulk_create conflicts os)
  unfolding bulk_create
  bulk_create-Follows conflicts os =
      raise_if-Keeps (Follows k t) (not (all_pending os)) illegal_transition
        (raise_if (sets_status conflicts) illegal_transition >> atomic (create_each conflicts os))
        (raise_if-Keeps (Follows k t) (sets_status conflicts) illegal_transition
          (atomic (create_each conflicts os))
          (atomic-Keeps (Follows k t) (create_each conflicts os)
            (create_each-Follows conflicts os)))
