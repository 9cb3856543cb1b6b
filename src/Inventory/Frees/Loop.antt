-- ===== src/Inventory/Frees/Loop.antt =====
-- `release_holds` of apps/inventory/providers/local.py: its loop, from the keys that it lists to the
-- state that it leaves.
use tip_metro_drip_ecommerce.Base.{
  ℕ, ◌+◌, ◌≤◌, ℤ, ◌≡◌, refl, sym, ◌∙◌, ap, subst, true, false, Option, none, some, String, List, [],
  ◌∷◌, All, length, select, lookup, arith,
}
use tip_metro_drip_ecommerce.Base.Action.{Result, ok, or_raise, ◌>>=◌}
use tip_metro_drip_ecommerce.Base.Keeps.{atomic_ok}
use tip_metro_drip_ecommerce.Base.Invert.{bind_ok}
use tip_metro_drip_ecommerce.Inventory.{
  StockRecord, ReservationStatus, active, committed, released, expired, is_active, Reservation,
  Ledger, find_reservation, put_reservation, save_stock, save_reservation,
}
use tip_metro_drip_ecommerce.Inventory.Soundness.{
  reserved_at, IsSound, find_reservation-pk, find_reservation_self,
}
use tip_metro_drip_ecommerce.Inventory.Provider.{
  does_not_exist, StockError, ended, Env, end_active, get_reservation,
}
use tip_metro_drip_ecommerce.Inventory.Provider.Steps.{returned}
use tip_metro_drip_ecommerce.Inventory.Settle.{
  pks, release, release_reservation, release_each, release_holds,
}
use tip_metro_drip_ecommerce.Inventory.Settle.Invariants.{release_reservation-Keeps}
use tip_metro_drip_ecommerce.Inventory.Stable.{IsStable}
use tip_metro_drip_ecommerce.Inventory.Sound.{IsSound-IsStable}
use tip_metro_drip_ecommerce.Inventory.Keyed.{IsKeyed, found_units, IsKeyed-IsStable}
use tip_metro_drip_ecommerce.Inventory.Frees.{
  held_by, held_besides, held_besides-nil, held_besides_all, held_besides-put, held_besides_ended,
  open_in,
}
use tip_metro_drip_ecommerce.Inventory.Frees.Listed.{
  Releasable, All-put, open_in-Releasable, found_held,
}

-- The counter that covers an active hold lets it end.
end_active_ok :
    (env : Env) (r : Reservation) (t : ReservationStatus) (s : Ledger) {stock : StockRecord}
    → lookup r.variant_id s.stock ≡ some stock
    → r.qty ≤ stock.qty_reserved
    → end_active env r t s ≡ (
      ok (ended env t r),
      save_reservation r.pk (ended env t r) (save_stock r.variant_id (returned r stock) s),
    )
unfolding end_active
end_active_ok env r t s e fits = ground arith

module _ (opening : ℕ → ℤ) (env : Env) where
  -- On a ledger that is sound, no active hold is without a counter that covers it.
  end_active_covered :
      (r : Reservation) (t : ReservationStatus) (s : Ledger)
      → IsSound opening s
      → IsKeyed s
      → find_reservation r.pk s.reservations ≡ some r
      → is_active r.status ≡ true
      → (u : Ledger) × (end_active env r t s ≡ (ok (ended env t r), u))
        × (u.reservations ≡ put_reservation r.pk (ended env t r) s.reservations)
  end_active_covered r t s sound keyed found on =
      from (lookup r.variant_id s.stock) refl
        (subst (r.qty ≤◌) (sound.covered r.variant_id) (found_held r.pk s.reservations found on))
        (found_units s.next_pk r.pk s.reservations keyed.rows found)
    where
      from :
          (o : Option StockRecord)
          → lookup r.variant_id s.stock ≡ o
          → r.qty ≤ reserved_at r.variant_id s.stock
          → 1 ≤ r.qty
          → (u : Ledger) × (end_active env r t s ≡ (ok (ended env t r), u))
            × (u.reservations ≡ put_reservation r.pk (ended env t r) s.reservations)
      from none e covers filled = absurd (ground arith)
      from (some stock) e covers filled = (_, end_active_ok env r t s e (ground arith), refl)

  release_found :
      (k : ℕ) (r a : Reservation) (st : ReservationStatus) (s : Ledger) {t : Ledger}
      → find_reservation k s.reservations ≡ some r
      → r.status ≡ st
      → release env r st s ≡ (ok a, t)
      → release_reservation env k s ≡ (ok a, t)
  unfolding release_reservation get_reservation
  release_found k r a st s found at done =
      atomic_ok (get_reservation k >>= λ r. release env r r.status) s (
        bind_ok (get_reservation k) (λ r. release env r r.status) s
          (ap (λ (o : Option Reservation). or_raise does_not_exist o s) found)
        ∙ (ap (λ (x : ReservationStatus). release env r x s) at ∙ done))

  -- One step of the loop returns, and what is left besides the other keys is what was left before.
  release_step :
      (c : String) (k : ℕ) (ks : List ℕ) (s : Ledger)
      → IsSound opening s
      → IsKeyed s
      → All (Releasable s.reservations) (k ∷ ks)
      → (a : Reservation) × (t : Ledger) × (release_reservation env k s ≡ (ok a, t))
        × (held_besides c ks t.reservations ≡ held_besides c (k ∷ ks) s.reservations)
        × All (Releasable t.reservations) ks
  unfolding release
  release_step c k ks s sound keyed ((r, found, live), rest) = from r.status refl
    where
      at : r.pk ≡ k
      at = find_reservation-pk k s.reservations found

      ended_already :
          (st : ReservationStatus)
          → r.status ≡ st
          → is_active st ≡ false
          → release env r st s ≡ (ok r, s)
          → (a : Reservation) × (t : Ledger) × (release_reservation env k s ≡ (ok a, t))
            × (held_besides c ks t.reservations ≡ held_besides c (k ∷ ks) s.reservations)
            × All (Releasable t.reservations) ks
      ended_already st e off done = (
        r,
        s,
        release_found k r r st s found e done,
        held_besides_ended s.next_pk c k ks s.reservations keyed.rows found (rw e off),
        rest,
      )

      from :
          (st : ReservationStatus)
          → r.status ≡ st
          → (a : Reservation) × (t : Ledger) × (release_reservation env k s ≡ (ok a, t))
            × (held_besides c ks t.reservations ≡ held_besides c (k ∷ ks) s.reservations)
            × All (Releasable t.reservations) ks
      from committed e = absurd (ground arith)
      from released e = ended_already released e refl refl
      from expired e = ended_already expired e refl refl
      from active e =
          let (u, done, rows) =
            end_active_covered r released s sound keyed
              (find_reservation_self k s.reservations r found) (ap is_active e) in
          let new : Reservation = ended env released r in
          (
            new,
            u,
            release_found k r new active s found e done,
            ap (held_besides c ks) rows
                ∙ subst
                    (λ j.
                      held_besides c ks (put_reservation j new s.reservations)
                      ≡ held_besides c (k ∷ ks) s.reservations)
                    (sym at)
                    (held_besides-put s.next_pk c k ks new s.reservations keyed.rows at refl),
            subst (λ rs. All (Releasable rs) ks) (sym rows)
                (All-put r.pk new s.reservations ks refl refl rest),
          )

  after_release :
      {P : Ledger → Type 0} (k : ℕ) (s : Ledger) {a : Reservation} {t : Ledger}
      → IsStable P
      → release_reservation env k s ≡ (ok a, t)
      → P s
      → P t
  after_release {P} k s stable done h =
      subst P (ap (λ (p : Result StockError Reservation × Ledger). p.1) done)
        (release_reservation-Keeps stable env k s h)

  pub release_each_frees :
      (c : String) (n : ℕ) (ks : List ℕ) (s : Ledger)
      → IsSound opening s
      → IsKeyed s
      → All (Releasable s.reservations) ks
      → (t : Ledger) × (release_each env n ks s ≡ (ok (n + length ks), t))
        × (held_by c t.reservations ≡ held_besides c ks s.reservations)
  unfolding release_each
  release_each_frees c n [] s sound keyed ready =
      (s, ap (λ (m : ℕ). (ok m, s)) (omega arith), sym (held_besides-nil c s.reservations))
  release_each_frees c n (k ∷ ks) s sound keyed ready =
      let (a, t, done, less, ready') = release_step c k ks s sound keyed ready in
      let (u, rest, none_left) =
        release_each_frees c (n + 1) ks t (after_release k s (IsSound-IsStable opening) done sound)
          (after_release k s IsKeyed-IsStable done keyed) ready' in
      (
        u,
        bind_ok (release_reservation env k) (λ _. release_each env (n + 1) ks) s done
            ∙ (rest ∙ ap (λ (m : ℕ). (ok m, u)) (omega arith)),
        none_left ∙ less,
      )

  -- On a ledger whose counters and keys are sound, `release_holds` always returns, whatever else the
  -- checkout's rows are, with the number of its active holds, and leaves no unit held under its
  -- `checkout_id`.
  pub release_holds_frees :
      (c : String) (s : Ledger)
      → IsSound opening s
      → IsKeyed s
      → (t : Ledger) × (release_holds env c s
          ≡ (ok (length (pks (select (open_in c) s.reservations))), t))
        × (held_by c t.reservations ≡ 0)
  unfolding release_holds
  release_holds_frees c s sound keyed =
      let (t, done, left) =
        release_each_frees c 0 (pks (select (open_in c) s.reservations)) s sound keyed
          (open_in-Releasable s.next_pk c s.reservations keyed.rows) in
      (t, done ∙ ap (λ (m : ℕ). (ok m, t)) (omega arith), left ∙ held_besides_all c s.reservations)
