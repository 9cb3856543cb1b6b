-- ===== src/Inventory/Frees.antt =====
-- `release_holds` of apps/inventory/providers/local.py: which holds of a checkout are left after each
-- step of its loop, and that none of its steps can raise.
pub mod Listed
pub mod Loop
use tip_metro_drip_ecommerce.Base.{
  ℕ, ◌+◌, ◌≤◌, ℤ, ◌≡◌, refl, sym, ◌∙◌, ap, subst, Bool, true, false, not, ◌&&◌, ◌||◌, Option, none,
  some, String, List, [], ◌∷◌, All, select, lookup, Bool-cases, Option-cases, inl, inr, ◌⊎◌, arith,
  ◌==◌, ==→eq, ==_self, if◌then◌else◌,
}
use tip_metro_drip_ecommerce.Base.Action.{ok, err, ◌>>=◌}
use tip_metro_drip_ecommerce.Inventory.{
  StockRecord, ReservationStatus, active, committed, released, expired, is_active, Reservation,
  Ledger, find_reservation, put_reservation, save_stock, save_reservation,
}
use tip_metro_drip_ecommerce.Inventory.Soundness.{
  units, held, reserved_at, IsSound, find_reservation-pk, find_reservation_self,
}
use tip_metro_drip_ecommerce.Inventory.Provider.{in_group, ended, Env}
use tip_metro_drip_ecommerce.Inventory.Settle.{pks}
use tip_metro_drip_ecommerce.Inventory.Keyed.{KeyedRows, IsKeyed, found_units}

abbrev pub open_units : String → Reservation → ℕ
open_units c r = if in_group c r && is_active r.status then r.qty else 0

-- The units that the active holds of a checkout hold.
unfoldable pub held_by : String → List Reservation → ℕ
held_by c [] = 0
held_by c (r ∷ rs) = open_units c r + held_by c rs

abbrev pub is_among : ℕ → List ℕ → Bool
is_among k [] = false
is_among k (j ∷ js) = j == k || is_among k js

-- Those of the rows whose keys are not listed.
unfoldable pub held_besides : String → List ℕ → List Reservation → ℕ
held_besides c ks [] = 0
held_besides c ks (r ∷ rs) = (if is_among r.pk ks then 0 else open_units c r) + held_besides c ks rs

pub held_besides-nil : (c : String) (rs : List Reservation) → held_besides c [] rs ≡ held_by c rs
unfolding held_besides held_by
held_besides-nil c [] = refl
held_besides-nil c (r ∷ rs) = omega (arith, held_besides-nil c rs)

held_besides-cons :
    (c : String) (k : ℕ) (ks : List ℕ) (rs : List Reservation)
    → held_besides c (k ∷ ks) rs ≤ held_besides c ks rs
unfolding held_besides
held_besides-cons c k ks [] = omega arith
held_besides-cons c k ks (r ∷ rs) = ground (arith, held_besides-cons c k ks rs)

abbrev pub open_in : String → Reservation → Bool
open_in c r = in_group c r && is_active r.status

-- The keys that the loop starts with are those of all the active holds.
pub held_besides_all :
    (c : String) (rs : List Reservation) → held_besides c (pks (select (open_in c) rs)) rs ≡ 0
unfolding held_besides
held_besides_all c [] = refl
held_besides_all c (r ∷ rs) = from (open_in c r) (held_besides_all c rs) refl
  where
    rest : List Reservation
    rest = select (open_in c) rs

    from :
        (b : Bool)
        → held_besides c (pks rest) rs ≡ 0
        → open_in c r ≡ b
        → held_besides c (pks (if b then r ∷ rest else rest)) (r ∷ rs) ≡ 0
    from true ih on = rw (==_self r.pk) (omega (arith, held_besides-cons c r.pk (pks rest) rs, ih))
    from false ih off = rw off (ground (arith, ih))

-- No row of the key k is among the rows.
held_besides_apart :
    (c : String) (k : ℕ) (ks : List ℕ) (rs : List Reservation)
    → find_reservation k rs ≡ none
    → held_besides c (k ∷ ks) rs ≡ held_besides c ks rs
unfolding held_besides
held_besides_apart c k ks [] e = refl
held_besides_apart c k ks (r ∷ rs) e = ground (arith, held_besides_apart c k ks rs)

-- A row that is not active, or is no longer, counts nothing.
pub held_besides-put :
    (next : ℕ) (c : String) (k : ℕ) (ks : List ℕ) (new : Reservation) (rs : List Reservation)
    → KeyedRows next rs
    → new.pk ≡ k
    → is_active new.status ≡ false
    → held_besides c ks (put_reservation k new rs) ≡ held_besides c (k ∷ ks) rs
unfolding held_besides KeyedRows
held_besides-put next c k ks new [] keyed at off = refl
held_besides-put next c k ks new (r ∷ rs) (below, filled, fresh, h) at off =
    elim (Bool-cases (r.pk == k)) [
      | inl here ↦
          let same =
            held_besides_apart c k ks rs
              (subst (λ j. find_reservation j rs ≡ none) (==→eq r.pk k here) fresh) in
          rw here (ground (arith, same))
      | inr apart ↦ rw apart (ground (arith, held_besides-put next c k ks new rs h at off))
    ]

pub held_besides_ended :
    (next : ℕ) (c : String) (k : ℕ) (ks : List ℕ) (rs : List Reservation) {r : Reservation}
    → KeyedRows next rs
    → find_reservation k rs ≡ some r
    → is_active r.status ≡ false
    → held_besides c ks rs ≡ held_besides c (k ∷ ks) rs
unfolding held_besides KeyedRows
held_besides_ended next c k ks [] keyed e off = refl
held_besides_ended next c k ks (x ∷ xs) {r} (below, filled, fresh, h) e off =
    elim (Bool-cases (x.pk == k)) [
      | inl here ↦
          let same =
            held_besides_apart c k ks xs
              (subst (λ j. find_reservation j xs ≡ none) (==→eq x.pk k here) fresh) in
          ground (arith, same)
      | inr apart ↦ ground (arith, held_besides_ended next c k ks xs {r = r} h)
    ]
