-- ===== src/Inventory/Soundness.antt =====
-- The hard invariants of the ledger: what each SKU's counters say of its rows, and how the sums over
-- rows change as one row is written. `opening` is the shelf count before the first movement.
use tip_metro_drip_ecommerce.Base.{
  ℕ, ◌+◌, ◌≤◌, ℤ, pos, ◌+ℤ◌, int_laws, +ℤ_assoc, +ℤ_zero, ◌≡◌, ◌&&◌, none, some, List, [], ◌∷◌,
  ◌++◌, Dict, lookup, insert, lookup-insert, ◌==◌, if◌then◌else◌, arith, sym, subst, Bool-cases,
  ==→eq, inl, inr,
}
use tip_metro_drip_ecommerce.Inventory.{
  StockRecord, is_active, Reservation, StockMovement, Ledger, find_reservation, put_reservation,
}

abbrev pub reserved_at : ℕ → Dict StockRecord → ℕ
reserved_at v d = elim (lookup v d) [ none ↦ 0 | some r ↦ r.qty_reserved ]

abbrev pub on_hand_at : ℕ → Dict StockRecord → ℕ
on_hand_at v d = elim (lookup v d) [ none ↦ 0 | some r ↦ r.qty_on_hand ]

-- The units that one row holds of a SKU.
abbrev pub units : ℕ → Reservation → ℕ
units v r = if r.variant_id == v && is_active r.status then r.qty else 0

unfoldable pub held : ℕ → List Reservation → ℕ
held v [] = 0
held v (r ∷ rs) = units v r + held v rs

abbrev pub shift : ℕ → StockMovement → ℤ
shift v m = if m.variant_id == v then m.delta else pos 0

unfoldable pub moved : ℕ → List StockMovement → ℤ
moved v [] = pos 0
moved v (m ∷ ms) = shift v m +ℤ moved v ms

pub record IsSound (opening : ℕ → ℤ) (s : Ledger) : Type 0 where
  pub covered : (v : ℕ) → held v s.reservations ≡ reserved_at v s.stock
  pub within : (v : ℕ) → reserved_at v s.stock ≤ on_hand_at v s.stock
  pub audited : (v : ℕ) → pos (on_hand_at v s.stock) ≡ opening v +ℤ moved v s.movements

pub held-append :
    (v : ℕ) (rs : List Reservation) (r : Reservation)
    → held v (rs ++ r ∷ []) ≡ held v rs + units v r
unfolding held
held-append v [] r = omega arith
held-append v (x ∷ xs) r = omega (arith, held-append v xs r)

-- Writing over the row `old` exchanges its units for those of the new row.
pub held-put :
    (v k : ℕ) (new : Reservation) {old : Reservation} (rs : List Reservation)
    → find_reservation k rs ≡ some old
    → held v (put_reservation k new rs) + units v old ≡ held v rs + units v new
unfolding held
held-put v k new [] e = cc
held-put v k new {old} (x ∷ xs) e = ground (arith, held-put v k new {old = old} xs)

pub reserved_at-insert :
    (v w : ℕ) (r : StockRecord) (d : Dict StockRecord)
    → reserved_at v (insert w r d) ≡ (if w == v then r.qty_reserved else reserved_at v d)
reserved_at-insert v w r d = ground (arith, lookup-insert w v r d)

pub on_hand_at-insert :
    (v w : ℕ) (r : StockRecord) (d : Dict StockRecord)
    → on_hand_at v (insert w r d) ≡ (if w == v then r.qty_on_hand else on_hand_at v d)
on_hand_at-insert v w r d = ground (arith, lookup-insert w v r d)

pub moved-append :
    (v : ℕ) (ms : List StockMovement) (m : StockMovement)
    → moved v (ms ++ m ∷ []) ≡ moved v ms +ℤ shift v m
unfolding moved
moved-append v [] m = omega int_laws
moved-append v (x ∷ xs) m = rw (moved-append v xs m) (omega int_laws)

-- A row that is found by a key has that key.
pub find_reservation-pk :
    (k : ℕ) (rs : List Reservation) {r : Reservation} → find_reservation k rs ≡ some r → r.pk ≡ k
find_reservation-pk k [] e = cc
find_reservation-pk k (x ∷ xs) {r} e = ground (arith, find_reservation-pk k xs {r = r})

carry : (a b c d n : ℤ) → a ≡ b +ℤ c → n ≡ a +ℤ d → n ≡ b +ℤ (c +ℤ d)
carry a b c d n e f = rw (f, e) (+ℤ_assoc b c d)

shift-zero : (a b c : ℤ) → a ≡ b +ℤ c → a ≡ b +ℤ (c +ℤ pos 0)
shift-zero a b c e = rw +ℤ_zero e

on_hand_of :
    (v w : ℕ) (old : StockRecord) (d : Dict StockRecord)
    → w ≡ v
    → lookup w d ≡ some old
    → on_hand_at v d ≡ old.qty_on_hand
on_hand_of v w old d same e = ground arith

-- The audit survives a write of one counter with its movement.
pub audited-insert :
    (opening : ℤ) (v w : ℕ) (new old : StockRecord) (m : StockMovement) (s : Ledger)
    → lookup w s.stock ≡ some old
    → m.variant_id ≡ w
    → pos new.qty_on_hand ≡ pos old.qty_on_hand +ℤ m.delta
    → pos (on_hand_at v s.stock) ≡ opening +ℤ moved v s.movements
    → pos (on_hand_at v (insert w new s.stock)) ≡ opening +ℤ moved v (s.movements ++ m ∷ [])
audited-insert opening v w new old m s e at by h =
    rw (on_hand_at-insert v w new s.stock, moved-append v s.movements m, at)
      (elim (Bool-cases (w == v)) [
        | inl same ↦ rw same (
            carry (pos old.qty_on_hand) opening (moved v s.movements) m.delta (pos new.qty_on_hand)
              (rw (sym (on_hand_of v w old s.stock (==→eq w v same) e)) h) by)
        | inr apart ↦
            rw apart (shift-zero (pos (on_hand_at v s.stock)) opening (moved v s.movements) h)
      ])

pub find_reservation_self :
    (k : ℕ) (rs : List Reservation) (r : Reservation)
    → find_reservation k rs ≡ some r
    → find_reservation r.pk rs ≡ some r
find_reservation_self k rs r e =
    subst (λ j. find_reservation j rs ≡ some r) (sym (find_reservation-pk k rs e)) e
