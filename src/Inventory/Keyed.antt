-- ===== src/Inventory/Keyed.antt =====
-- apps/inventory/models.py: the reservations as a table. Every row is the one that its key finds, the
-- next key is above them all, and no row is of zero units (the constraint chk_reservation_qty_min1).
use tip_metro_drip_ecommerce.Base.{
  ℕ, ◌+◌, ◌≤◌, ◌<◌, ◌≡◌, refl, none, some, List, [], ◌∷◌, ◌++◌, inl, inr, arith, sym, ◌∙◌, subst,
  ==→eq, Bool-cases, ◌==◌,
}
use tip_metro_drip_ecommerce.Inventory.{Reservation, Ledger, find_reservation, put_reservation}
use tip_metro_drip_ecommerce.Inventory.Provider.{ended, new_hold}
use tip_metro_drip_ecommerce.Inventory.Provider.Steps.{end_active_cases, hold_cases}
use tip_metro_drip_ecommerce.Inventory.Settle.{sold}
use tip_metro_drip_ecommerce.Inventory.Settle.Invariants.{sell_cases}
use tip_metro_drip_ecommerce.Inventory.Adjust.Invariants.{move_stock_cases}
use tip_metro_drip_ecommerce.Inventory.Stable.{IsStable}

-- Over the rows of a table whose next key is given.
unfoldable pub KeyedRows : ℕ → List Reservation → Type 0
KeyedRows next [] = Unit
KeyedRows next (r ∷ rs) =
    (r.pk < next) × (1 ≤ r.qty) × (find_reservation r.pk rs ≡ none) × KeyedRows next rs

pub record IsKeyed (s : Ledger) : Type 0 where
  pub rows : KeyedRows s.next_pk s.reservations

find-put_none :
    (j k : ℕ) (new : Reservation) (rs : List Reservation)
    → new.pk ≡ k
    → find_reservation j rs ≡ none
    → find_reservation j (put_reservation k new rs) ≡ none
find-put_none j k new [] at e = refl
find-put_none j k new (r ∷ rs) at e = ground (arith, find-put_none j k new rs at)

find-append_none :
    (j : ℕ) (rs : List Reservation) (r : Reservation)
    → find_reservation j rs ≡ none
    → j < r.pk
    → find_reservation j (rs ++ r ∷ []) ≡ none
find-append_none j [] r e h = ground arith
find-append_none j (x ∷ xs) r e h = ground (arith, find-append_none j xs r)

put-KeyedRows :
    (next k : ℕ) (new : Reservation) (rs : List Reservation)
    → new.pk ≡ k
    → 1 ≤ new.qty
    → KeyedRows next rs
    → KeyedRows next (put_reservation k new rs)
unfolding KeyedRows
put-KeyedRows next k new [] at some_units h = tt
put-KeyedRows next k new (r ∷ rs) at some_units (below, filled, fresh, h) =
    elim (Bool-cases (r.pk == k)) [
      | inl here ↦ rw here (
          let same : r.pk ≡ new.pk = ==→eq r.pk k here ∙ sym at in
          (omega arith, some_units, subst (λ j. find_reservation j rs ≡ none) same fresh, h))
      | inr apart ↦ rw apart (
        below,
        filled,
        find-put_none r.pk k new rs at fresh,
        put-KeyedRows next k new rs at some_units h,
      )
    ]

append-KeyedRows :
    (next : ℕ) (new : Reservation) (rs : List Reservation)
    → new.pk ≡ next
    → 1 ≤ new.qty
    → KeyedRows next rs
    → KeyedRows (next + 1) (rs ++ new ∷ [])
unfolding KeyedRows
append-KeyedRows next new [] at some_units h = (omega arith, some_units, refl, tt)
append-KeyedRows next new (r ∷ rs) at some_units (below, filled, fresh, h) = (
  omega arith,
  filled,
  find-append_none r.pk rs new fresh (omega arith),
  append-KeyedRows next new rs at some_units h,
)

-- A row that is found is of some units.
pub found_units :
    (next k : ℕ) (rs : List Reservation) {r : Reservation}
    → KeyedRows next rs
    → find_reservation k rs ≡ some r
    → 1 ≤ r.qty
unfolding KeyedRows
found_units next k [] h e = cc
found_units next k (x ∷ xs) {r} (below, filled, fresh, h) e = elim (Bool-cases (x.pk == k)) [
  | inl here ↦ ground arith
  | inr apart ↦ found_units next k xs {r = r} h (ground arith)
]

pub IsKeyed-IsStable : IsStable IsKeyed
IsKeyed-IsStable = record {
  hold = λ v n k c o e some_units s h. elim (hold_cases v n (new_hold v n k c o e) s) [
    | inl (x, eq) ↦ rw eq h
    | inr (stock, at, fits, eq) ↦ rw eq (record {
      rows =
          append-KeyedRows s.next_pk (new_hold v n k c o e s.next_pk) s.reservations refl some_units
            h.rows;
    })
  ];
  end_active = λ env r t s found on off h. elim (end_active_cases env r t s) [
    | inl (x, eq) ↦ rw eq h
    | inr (stock, at, fits, eq) ↦ rw eq (record {
      rows =
          put-KeyedRows s.next_pk r.pk (ended env t r) s.reservations refl
            (found_units s.next_pk r.pk s.reservations h.rows found) h.rows;
    })
  ];
  sell = λ env o r s found h. elim (sell_cases env o r s) [
    | inl (x, eq) ↦ rw eq h
    | inr (stock, at, on, shelf, fits, eq) ↦ rw eq (record {
      rows =
          put-KeyedRows s.next_pk r.pk (sold env o r) s.reservations refl
            (found_units s.next_pk r.pk s.reservations h.rows found) h.rows;
    })
  ];
  move_stock = λ v d why o s h. elim (move_stock_cases v d why o s) [
    | inl (x, eq) ↦ rw eq h
    | inr (stock, at, enough, eq) ↦ rw eq (record { rows = h.rows })
  ];
  create_key = λ r s h. record { rows = h.rows };
}
