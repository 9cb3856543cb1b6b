-- ===== src/Inventory/Sound.antt =====
-- The five kinds of write keep the ledger sound.
use tip_metro_drip_ecommerce.Base.{
  ℕ, ◌-◌, ◌≤◌, ℤ, pos, pos_part, neg_ℤ, ◌+ℤ◌, ◌≤ℤ◌, int_laws, ◌≡◌, refl, true, false, Option, some,
  inl, inr, arith,
}
use tip_metro_drip_ecommerce.Base.Keeps.{Keeps}
use tip_metro_drip_ecommerce.Inventory.{
  ReservationStatus, is_active, Reservation, IdempotencyRecord, MovementReason, Ledger,
  find_reservation, create_key,
}
use tip_metro_drip_ecommerce.Inventory.Soundness.{
  units, IsSound, held-append, held-put, reserved_at-insert, on_hand_at-insert, audited-insert,
}
use tip_metro_drip_ecommerce.Inventory.Provider.{Env, ended, end_active, hold, new_hold}
use tip_metro_drip_ecommerce.Inventory.Provider.Steps.{
  returned, end_active_cases, taken, hold_cases,
}
use tip_metro_drip_ecommerce.Inventory.Settle.{sold, sell}
use tip_metro_drip_ecommerce.Inventory.Settle.Invariants.{shipped, sale_of, sell_cases}
use tip_metro_drip_ecommerce.Inventory.Adjust.{move_stock}
use tip_metro_drip_ecommerce.Inventory.Adjust.Invariants.{recounted, movement, move_stock_cases}
use tip_metro_drip_ecommerce.Inventory.Stable.{IsStable}

-- Ending an active hold in another state gives its units back.
pub end_active-IsSound :
    (opening : ℕ → ℤ) (env : Env) (r : Reservation) (t : ReservationStatus) (s : Ledger)
    → find_reservation r.pk s.reservations ≡ some r
    → is_active r.status ≡ true
    → is_active t ≡ false
    → IsSound opening s
    → IsSound opening (end_active env r t s).1
end_active-IsSound opening env r t s found on off h = elim (end_active_cases env r t s) [
  | inl (x, eq) ↦ rw eq h
  | inr (stock, e, fits, eq) ↦ rw eq (record {
    covered = λ v. ground (
      arith,
      h.covered v,
      held-put v r.pk (ended env t r) {old = r} s.reservations,
      reserved_at-insert v r.variant_id (returned r stock) s.stock,
    );
    within = λ v. ground (
      arith,
      h.within v,
      reserved_at-insert v r.variant_id (returned r stock) s.stock,
      on_hand_at-insert v r.variant_id (returned r stock) s.stock,
    );
    audited = λ v.
        ground (arith, h.audited v, on_hand_at-insert v r.variant_id (returned r stock) s.stock);
  })
]

-- A hold of units that are available, in a new active row.
pub hold-IsSound :
    (opening : ℕ → ℤ) (v n : ℕ) (row : ℕ → Reservation) (s : Ledger)
    → ((k : ℕ) → units v (row k) ≡ n)
    → ((k : ℕ) → (row k).variant_id ≡ v)
    → IsSound opening s
    → IsSound opening (hold v n row s).1
hold-IsSound opening v n row s of_n at_v h = elim (hold_cases v n row s) [
  | inl (x, eq) ↦ rw eq h
  | inr (stock, e, fits, eq) ↦ rw eq (record {
    covered = λ w. ground (
      arith,
      h.covered w,
      of_n s.next_pk,
      at_v s.next_pk,
      held-append w s.reservations (row s.next_pk),
      reserved_at-insert w v (taken n stock) s.stock,
    );
    within = λ w. ground (
      arith,
      h.within w,
      reserved_at-insert w v (taken n stock) s.stock,
      on_hand_at-insert w v (taken n stock) s.stock,
    );
    audited = λ w. ground (arith, h.audited w, on_hand_at-insert w v (taken n stock) s.stock);
  })
]

-- A key row changes no counter and no hold.
pub create_key-IsSound :
    {opening : ℕ → ℤ} (r : IdempotencyRecord) (s : Ledger)
    → IsSound opening s
    → IsSound opening (create_key r s)
create_key-IsSound r s h = record { covered = h.covered; within = h.within; audited = h.audited }

sold_units : (n q : ℕ) → q ≤ n → pos (n - q) ≡ pos n +ℤ neg_ℤ q
sold_units n q h = omega int_laws

pub sell-IsSound :
    (opening : ℕ → ℤ) (env : Env) (o : Option ℕ) (r : Reservation) (s : Ledger)
    → find_reservation r.pk s.reservations ≡ some r
    → IsSound opening s
    → IsSound opening (sell env o r s).1
sell-IsSound opening env o r s found h = elim (sell_cases env o r s) [
  | inl (x, eq) ↦ rw eq h
  | inr (stock, e, on, shelf, fits, eq) ↦ rw eq (record {
    covered = λ v. ground (
      arith,
      h.covered v,
      held-put v r.pk (sold env o r) {old = r} s.reservations,
      reserved_at-insert v r.variant_id (shipped r stock) s.stock,
    );
    within = λ v. ground (
      arith,
      h.within v,
      reserved_at-insert v r.variant_id (shipped r stock) s.stock,
      on_hand_at-insert v r.variant_id (shipped r stock) s.stock,
    );
    audited = λ v.
        audited-insert (opening v) v r.variant_id (shipped r stock) stock (sale_of o r) s e refl
          (sold_units stock.qty_on_hand r.qty shelf) (h.audited v);
  })
]

nonneg : (r : ℕ) (z : ℤ) → pos r ≤ℤ z → pos (pos_part z) ≡ z
nonneg r z h = ground arith

pub move_stock-IsSound :
    (opening : ℕ → ℤ) (v : ℕ) (d : ℤ) (why : MovementReason) (o : Option ℕ)
    → Keeps (IsSound opening) (move_stock v d why o)
move_stock-IsSound opening v d why o s h = elim (move_stock_cases v d why o s) [
  | inl (x, eq) ↦ rw eq h
  | inr (stock, e, enough, eq) ↦ rw eq (record {
    covered = λ w. ground (arith, h.covered w, reserved_at-insert w v (recounted d stock) s.stock);
    within = λ w. ground (
      arith,
      h.within w,
      reserved_at-insert w v (recounted d stock) s.stock,
      on_hand_at-insert w v (recounted d stock) s.stock,
    );
    audited = λ w.
        audited-insert (opening w) w v (recounted d stock) stock (movement v d why o) s e refl
          (nonneg stock.qty_reserved (pos stock.qty_on_hand +ℤ d) enough) (h.audited w);
  })
]

pub IsSound-IsStable : (opening : ℕ → ℤ) → IsStable (IsSound opening)
IsSound-IsStable opening = record {
  hold = λ v n k c o e _ s h.
      hold-IsSound opening v n (new_hold v n k c o e) s (λ _. ground arith) (λ _. refl) h;
  end_active = end_active-IsSound opening;
  sell = sell-IsSound opening;
  move_stock = move_stock-IsSound opening;
  create_key = create_key-IsSound;
}
