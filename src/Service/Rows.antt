-- ===== src/Service/Rows.antt =====
-- services/inventory/api.py: the rows that a query has loaded and locked stay those of the table until
-- their own turn.
use tip_metro_drip_ecommerce.Base.{
  ℕ, ◌≡◌, refl, ◌∙◌, Bool, true, false, none, some, List, [], ◌∷◌, All, select, leb, ◌==◌, ==_self,
  Bool-cases, inl, inr, arith,
}
use tip_metro_drip_ecommerce.Inventory.{is_active, Reservation, find_reservation, put_reservation}
use tip_metro_drip_ecommerce.Inventory.Keyed.{KeyedRows}
use tip_metro_drip_ecommerce.Inventory.Frees.Listed.{find-put}
use tip_metro_drip_ecommerce.Service.Reservations.{insert_by_variant, by_variant}

abbrev pub IsFound : List Reservation → Reservation → Type 0
IsFound rows r = find_reservation r.pk rows ≡ some r

abbrev pub IsOther : ℕ → Reservation → Type 0
IsOther k r = (r.pk == k) ≡ false

abbrev pub Distinct : List Reservation → Type 0
Distinct [] = Unit
Distinct (r ∷ rs) = All (IsOther r.pk) rs × Distinct rs

-- Loaded rows: each is active and the one that its key finds, and no two are the same.
pub record IsLoaded (rows rs : List Reservation) : Type 0 where
  pub found : All (IsFound rows) rs
  pub live : All (λ r. is_active r.status ≡ true) rs
  pub distinct : Distinct rs

module _ (P : Reservation → Type 0) where
  All-insert_by_variant :
      (r : Reservation) (rs : List Reservation) → P r → All P rs → All P (insert_by_variant r rs)
  unfolding insert_by_variant
  All-insert_by_variant r [] p h = (p, tt)
  All-insert_by_variant r (x ∷ xs) p (q, h) = elim (Bool-cases (leb r.variant_id x.variant_id)) [
    | inl b ↦ rw b (p, (q, h))
    | inr b ↦ rw b (q, All-insert_by_variant r xs p h)
  ]

  All-by_variant : (rs : List Reservation) → All P rs → All P (by_variant rs)
  unfolding by_variant
  All-by_variant [] h = tt
  All-by_variant (r ∷ rs) (p, h) = All-insert_by_variant r (by_variant rs) p (All-by_variant rs h)

  All-select : (p : Reservation → Bool) (rs : List Reservation) → All P rs → All P (select p rs)
  All-select p [] h = tt
  All-select p (r ∷ rs) (q, h) = elim (Bool-cases (p r)) [
    | inl b ↦ rw b (q, All-select p rs h)
    | inr b ↦ rw b (All-select p rs h)
  ]

IsOther-sym : (r x : Reservation) → IsOther r.pk x → IsOther x.pk r
IsOther-sym r x e = ground arith

Distinct-insert_by_variant :
    (r : Reservation) (rs : List Reservation)
    → All (IsOther r.pk) rs
    → Distinct rs
    → Distinct (insert_by_variant r rs)
unfolding insert_by_variant
Distinct-insert_by_variant r [] other h = (tt, tt)
Distinct-insert_by_variant r (x ∷ xs) (o, other) (d, h) =
    elim (Bool-cases (leb r.variant_id x.variant_id)) [
      | inl b ↦ rw b ((o, other), (d, h))
      | inr b ↦ rw b (
        All-insert_by_variant (IsOther x.pk) r xs (IsOther-sym r x o) d,
        Distinct-insert_by_variant r xs other h,
      )
    ]

Distinct-by_variant : (rs : List Reservation) → Distinct rs → Distinct (by_variant rs)
unfolding by_variant
Distinct-by_variant [] h = tt
Distinct-by_variant (r ∷ rs) (d, h) =
    Distinct-insert_by_variant r (by_variant rs) (All-by_variant (IsOther r.pk) rs d)
      (Distinct-by_variant rs h)

Distinct-select :
    (p : Reservation → Bool) (rs : List Reservation) → Distinct rs → Distinct (select p rs)
Distinct-select p [] h = tt
Distinct-select p (r ∷ rs) (d, h) = elim (Bool-cases (p r)) [
  | inl b ↦ rw b (All-select (IsOther r.pk) p rs d, Distinct-select p rs h)
  | inr b ↦ rw b (Distinct-select p rs h)
]

-- Rows whose key is not found all have other keys.
none-IsOther : (k : ℕ) (rs : List Reservation) → find_reservation k rs ≡ none → All (IsOther k) rs
none-IsOther k [] e = tt
none-IsOther k (r ∷ rs) e = elim (Bool-cases (r.pk == k)) [
  | inl b ↦ absurd (ground arith)
  | inr b ↦ (b, none-IsOther k rs (ground arith))
]

KeyedRows-Distinct : (next : ℕ) (rs : List Reservation) → KeyedRows next rs → Distinct rs
unfolding KeyedRows
KeyedRows-Distinct next [] h = tt
KeyedRows-Distinct next (r ∷ rs) (below, filled, fresh, h) =
    (none-IsOther r.pk rs fresh, KeyedRows-Distinct next rs h)

IsFound-cons :
    (r : Reservation) (rs xs : List Reservation)
    → All (IsOther r.pk) xs
    → All (IsFound rs) xs
    → All (IsFound (r ∷ rs)) xs
IsFound-cons r rs [] other h = tt
IsFound-cons r rs (x ∷ xs) (o, other) (e, h) =
    (rw (IsOther-sym r x o) e, IsFound-cons r rs xs other h)

KeyedRows-IsFound : (next : ℕ) (rs : List Reservation) → KeyedRows next rs → All (IsFound rs) rs
unfolding KeyedRows
KeyedRows-IsFound next [] h = tt
KeyedRows-IsFound next (r ∷ rs) (below, filled, fresh, h) = (
  rw (==_self r.pk) refl,
  IsFound-cons r rs rs (none-IsOther r.pk rs fresh) (KeyedRows-IsFound next rs h),
)

-- What a query for active rows loads.
pub query-IsLoaded :
    (next : ℕ) (p : Reservation → Bool) (rs : List Reservation)
    → KeyedRows next rs
    → All (λ r. is_active r.status ≡ true) (select p rs)
    → IsLoaded rs (by_variant (select p rs))
query-IsLoaded next p rs keyed live = record {
  found =
      All-by_variant (IsFound rs) (select p rs)
        (All-select (IsFound rs) p rs (KeyedRows-IsFound next rs keyed));
  live = All-by_variant (λ r. is_active r.status ≡ true) (select p rs) live;
  distinct =
      Distinct-by_variant (select p rs) (Distinct-select p rs (KeyedRows-Distinct next rs keyed));
}

-- Writing one row leaves those of other keys.
pub IsFound-put :
    (k : ℕ) (new : Reservation) (rows xs : List Reservation)
    → new.pk ≡ k
    → All (IsOther k) xs
    → All (IsFound rows) xs
    → All (IsFound (put_reservation k new rows)) xs
IsFound-put k new rows [] at other h = tt
IsFound-put k new rows (x ∷ xs) at (o, other) (e, h) =
    (find-put x.pk k new rows at ∙ rw o e, IsFound-put k new rows xs at other h)
