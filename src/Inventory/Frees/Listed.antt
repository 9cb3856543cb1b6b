-- ===== src/Inventory/Frees/Listed.antt =====
-- `release_holds` of apps/inventory/providers/local.py: each key that its loop has left finds a row
-- that can be released.
use tip_metro_drip_ecommerce.Base.{
  ℕ, ◌≤◌, ◌≡◌, ◌≢◌, refl, sym, ◌∙◌, subst, Bool, true, false, Option, none, some, String, List, [],
  ◌∷◌, All, select, Bool-cases, inl, inr, arith, ◌==◌, ==→eq, if◌then◌else◌,
}
use tip_metro_drip_ecommerce.Inventory.{
  ReservationStatus, active, committed, released, expired, is_active, Reservation, find_reservation,
  put_reservation,
}
use tip_metro_drip_ecommerce.Inventory.Soundness.{held}
use tip_metro_drip_ecommerce.Inventory.Settle.{pks}
use tip_metro_drip_ecommerce.Inventory.Keyed.{KeyedRows}
use tip_metro_drip_ecommerce.Inventory.Frees.{open_in}

abbrev pub is_committed : ReservationStatus → Bool
is_committed active = false
is_committed committed = true
is_committed released = false
is_committed expired = false

-- The key finds a row, and one that is not a sale.
abbrev pub Releasable : List Reservation → ℕ → Type 0
Releasable rs k =
    (r : Reservation) × (find_reservation k rs ≡ some r) × (is_committed r.status ≡ false)

pub find-put :
    (j k : ℕ) (new : Reservation) (rs : List Reservation)
    → new.pk ≡ k
    → find_reservation j (put_reservation k new rs) ≡ (
        if j == k
        then elim (find_reservation j rs) [ none ↦ none | some r ↦ some new ]
        else find_reservation j rs)
find-put j k new [] at = ground arith
find-put j k new (r ∷ rs) at = ground (arith, find-put j k new rs at)

Releasable-put :
    (j k : ℕ) (new : Reservation) (rs : List Reservation)
    → new.pk ≡ k
    → is_committed new.status ≡ false
    → Releasable rs j
    → Releasable (put_reservation k new rs) j
Releasable-put j k new rs at off (r, e, live) = elim (Bool-cases (j == k)) [
  | inl same ↦ (new, find-put j k new rs at ∙ (rw (same, e) refl), off)
  | inr apart ↦ (r, find-put j k new rs at ∙ (rw (apart, e) refl), live)
]

pub All-put :
    (k : ℕ) (new : Reservation) (rs : List Reservation) (js : List ℕ)
    → new.pk ≡ k
    → is_committed new.status ≡ false
    → All (Releasable rs) js
    → All (Releasable (put_reservation k new rs)) js
All-put k new rs [] at off h = tt
All-put k new rs (j ∷ js) at off (h, hs) =
    (Releasable-put j k new rs at off h, All-put k new rs js at off hs)

-- A row in front whose key is of no other row hides none.
All-cons :
    (r : Reservation) (rs : List Reservation) (js : List ℕ)
    → find_reservation r.pk rs ≡ none
    → All (Releasable rs) js
    → All (Releasable (r ∷ rs)) js
All-cons r rs [] fresh h = tt
All-cons r rs (j ∷ js) fresh ((x, e, live), hs) =
    ((x, hides (r.pk == j) refl, live), All-cons r rs js fresh hs)
  where
    none≢some : ◌≢◌ {A = Option Reservation} none (some x)
    none≢some q = cc

    hides : (b : Bool) → (r.pk == j) ≡ b → find_reservation j (r ∷ rs) ≡ some x
    hides true here =
        let same : j ≡ r.pk = sym (==→eq r.pk j here) in
        absurd (none≢some (sym fresh ∙ (subst (λ k. find_reservation k rs ≡ some x) same e)))
    hides false apart = rw apart e

pub open_in-Releasable :
    (next : ℕ) (c : String) (rs : List Reservation)
    → KeyedRows next rs
    → All (Releasable rs) (pks (select (open_in c) rs))
unfolding KeyedRows
open_in-Releasable next c [] h = tt
open_in-Releasable next c (r ∷ rs) (below, filled, fresh, h) =
    from (open_in c r) refl
      (All-cons r rs (pks (select (open_in c) rs)) fresh (open_in-Releasable next c rs h))
  where
    self : find_reservation r.pk (r ∷ rs) ≡ some r
    self = ground arith

    from :
        (b : Bool)
        → open_in c r ≡ b
        → All (Releasable (r ∷ rs)) (pks (select (open_in c) rs))
        → All
            (Releasable (r ∷ rs))
            (pks (if b then r ∷ select (open_in c) rs else select (open_in c) rs))
    from true on rest = ((r, self, ground arith), rest)
    from false off rest = rest

pub found_held :
    (k : ℕ) (rs : List Reservation) {r : Reservation}
    → find_reservation k rs ≡ some r
    → is_active r.status ≡ true
    → r.qty ≤ held r.variant_id rs
unfolding held
found_held k [] e on = cc
found_held k (x ∷ xs) {r} e on = elim (Bool-cases (x.pk == k)) [
  | inl here ↦ ground arith
  | inr apart ↦ ground (arith, found_held k xs {r = r})
]
