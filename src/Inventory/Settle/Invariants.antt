-- ===== src/Inventory/Settle/Invariants.antt =====
-- Sales, releases and the expiry sweep keep every invariant that their writes keep, whether they return or raise.
use tip_metro_drip_ecommerce.Base.{
  ℕ, ◌+◌, ◌-◌, ◌≤◌, neg_ℤ, ◌≡◌, refl, Bool, true, false, not, ◌&&◌, ◌||◌, Option, none, some,
  lookup, Dict, String, select, List, [], ◌∷◌, Option-cases, Bool-cases, inl, inr, ◌⊎◌, arith, ltb,
  if◌then◌else◌,
}
use tip_metro_drip_ecommerce.Base.Action.{ok, err, Result, pure, gets, atomic, ◌>>=◌}
use tip_metro_drip_ecommerce.Inventory.{
  StockRecord, ReservationStatus, active, committed, released, expired, is_active, Reservation,
  sale, StockMovement, Ledger, find_reservation, save_stock, save_reservation, create_movement,
}
use tip_metro_drip_ecommerce.Inventory.Provider.{
  StockError, does_not_exist, invalid_reservation_state, Call, Env, get_reservation, end_active,
  in_group,
}
use tip_metro_drip_ecommerce.Base.Keeps.{Keeps, atomic-Keeps, bind-Keeps_from, bind-Keeps}
use tip_metro_drip_ecommerce.Inventory.Soundness.{find_reservation_self}
use tip_metro_drip_ecommerce.Inventory.Stable.{IsStable}
use tip_metro_drip_ecommerce.Inventory.Provider.Steps.{get_reservation-Keeps}
use tip_metro_drip_ecommerce.Inventory.Settle.{
  sold, sell, commit_reservation, commit_one, commit_each, commit_holds, release,
  release_reservation, release_each, release_holds, expire_locked, expire_one, or_false,
  expire_each, release_expired_reservations, tally, pks, overdue,
}

abbrev pub shipped : Reservation → StockRecord → StockRecord
shipped r stock = record stock {
  qty_on_hand = stock.qty_on_hand - r.qty;
  qty_reserved = stock.qty_reserved - r.qty;
}

abbrev pub sale_of : Option ℕ → Reservation → StockMovement
sale_of order_id r = record {
  variant_id = r.variant_id;
  delta = neg_ℤ r.qty;
  reason = sale;
  ref_order_id = order_id;
}

-- A sale raises and writes nothing, or the hold was active, both counters cover it, and all three
-- rows are written.
pub sell_cases :
    (env : Env) (order_id : Option ℕ) (r : Reservation) (s : Ledger)
    → ((x : StockError) × (sell env order_id r s ≡ (err x, s)))
      ⊎ ((stock : StockRecord) × (lookup r.variant_id s.stock ≡ some stock)
          × (is_active r.status ≡ true)
          × (r.qty ≤ stock.qty_on_hand)
          × (r.qty ≤ stock.qty_reserved)
          × (sell env order_id r s ≡ (
            ok (sold env order_id r),
            save_reservation r.pk (sold env order_id r) (
                create_movement (sale_of order_id r) (save_stock r.variant_id (shipped r stock) s)),
          )))
unfolding sell
sell_cases env o r s = elim (Bool-cases (is_active r.status)) [
  | inr off ↦ inl (invalid_reservation_state, ground arith)
  | inl on ↦ elim (Option-cases (lookup r.variant_id s.stock)) [
    | inl missing ↦ inl (does_not_exist, ground arith)
    | inr (stock, e) ↦
        elim (Bool-cases (ltb stock.qty_on_hand r.qty || ltb stock.qty_reserved r.qty)) [
          | inl short ↦ inl (invalid_reservation_state, ground arith)
          | inr covers ↦ inr (stock, e, on, ground arith, ground arith, ground arith)
        ]
  ]
]

module _ {P : Ledger → Type 0} (stable : IsStable P) (env : Env) where
  pub commit_reservation-Keeps : (k : ℕ) (o : Option ℕ) → Keeps P (commit_reservation env k o)
  unfolding commit_reservation
  commit_reservation-Keeps k o = atomic-Keeps P (get_reservation k >>= sell env o) λ s h.
      get_reservation-Keeps P k (sell env o) s h
        λ r e. stable.sell env o r s (find_reservation_self k s.reservations r e) h

  commit_one-Keeps :
      (o : Option ℕ) (d : Dict ℕ) (r : Reservation) (t : ReservationStatus)
      → Keeps P (commit_one env o d r t)
  unfolding commit_one
  commit_one-Keeps o d r active s h =
      bind-Keeps P (commit_reservation env r.pk o) (λ _. pure (tally r.variant_id r.qty d))
        (commit_reservation-Keeps r.pk o) (λ _ t k. k) s h
  commit_one-Keeps o d r committed s h = ground arith
  commit_one-Keeps o d r released s h = h
  commit_one-Keeps o d r expired s h = h

  commit_each-Keeps :
      (o : Option ℕ) (d : Dict ℕ) (rs : List Reservation) → Keeps P (commit_each env o d rs)
  unfolding commit_each
  commit_each-Keeps o d [] s h = h
  commit_each-Keeps o d (r ∷ rs) s h =
      bind-Keeps P (commit_one env o d r r.status) (λ d'. commit_each env o d' rs)
        (commit_one-Keeps o d r r.status) (λ d'. commit_each-Keeps o d' rs) s h

  pub commit_holds-Keeps :
      (checkout_id : String) (o : Option ℕ) → Keeps P (commit_holds env checkout_id o)
  unfolding commit_holds
  commit_holds-Keeps c o =
      atomic-Keeps P (gets (λ s. select (in_group c) s.reservations) >>= commit_each env o [])
        (λ s. commit_each-Keeps o [] (select (in_group c) s.reservations) s)

  release-Keeps :
      (r : Reservation) (t : ReservationStatus) (s : Ledger)
      → find_reservation r.pk s.reservations ≡ some r
      → r.status ≡ t
      → P s
      → P (release env r t s).1
  unfolding release
  release-Keeps r active s e at h = stable.end_active env r released s e (rw at) refl h
  release-Keeps r committed s e at h = h
  release-Keeps r released s e at h = h
  release-Keeps r expired s e at h = h

  pub release_reservation-Keeps : (k : ℕ) → Keeps P (release_reservation env k)
  unfolding release_reservation
  release_reservation-Keeps k =
      atomic-Keeps P (get_reservation k >>= λ r. release env r r.status) λ s h.
        get_reservation-Keeps P k (λ r. release env r r.status) s h
          λ r e. release-Keeps r r.status s (find_reservation_self k s.reservations r e) refl h

  release_each-Keeps : (n : ℕ) (ks : List ℕ) → Keeps P (release_each env n ks)
  unfolding release_each
  release_each-Keeps n [] s h = h
  release_each-Keeps n (k ∷ ks) s h =
      bind-Keeps P (release_reservation env k) (λ _. release_each env (n + 1) ks)
        (release_reservation-Keeps k) (λ _. release_each-Keeps (n + 1) ks) s h

  pub release_holds-Keeps : (checkout_id : String) → Keeps P (release_holds env checkout_id)
  unfolding release_holds
  release_holds-Keeps c s =
      release_each-Keeps 0 (pks (select (λ r. in_group c r && is_active r.status) s.reservations)) s

  expire_locked-Keeps :
      (now : ℕ) (r : Reservation) (s : Ledger)
      → find_reservation r.pk s.reservations ≡ some r
      → P s
      → P (expire_locked env now r s).1
  unfolding expire_locked
  expire_locked-Keeps now r s e h =
      elim (Bool-cases (not (is_active r.status) || ltb now r.expires_at)) [
        | inl late ↦ rw late h
        | inr due ↦ rw due (
            bind-Keeps_from P (end_active env r expired) (λ _. pure true) s
              (stable.end_active env r expired s e (ground arith) refl h)
              (λ _ _. stable.end_active env r expired s e (ground arith) refl h))
      ]

  or_false-Keeps : (m : Call Bool) → Keeps P m → Keeps P (or_false m)
  or_false-Keeps m k s h = from (m s).0 (m s).1 (k s h)
    where
      from :
          (r : Result StockError Bool) (t : Ledger)
          → P t
          → P
              (elim r as (λ _. Result StockError Bool × Ledger) [
                | ok b ↦ (ok b, t)
                | err x ↦ (ok false, t)
              ]).1
      from (ok b) t q = q
      from (err x) t q = q

  expire_one-Keeps : (now k : ℕ) → Keeps P (expire_one env now k)
  unfolding expire_one
  expire_one-Keeps now k = or_false-Keeps (atomic (get_reservation k >>= expire_locked env now)) (
      atomic-Keeps P (get_reservation k >>= expire_locked env now) λ s h.
        get_reservation-Keeps P k (expire_locked env now) s h
          λ r e. expire_locked-Keeps now r s (find_reservation_self k s.reservations r e) h)

  expire_each-Keeps : (now n : ℕ) (ks : List ℕ) → Keeps P (expire_each env now n ks)
  unfolding expire_each
  expire_each-Keeps now n [] s h = h
  expire_each-Keeps now n (k ∷ ks) s h =
      bind-Keeps P (expire_one env now k)
        (λ done. expire_each env now (if done then n + 1 else n) ks) (expire_one-Keeps now k)
        (λ done. expire_each-Keeps now (if done then n + 1 else n) ks) s h

  pub release_expired_reservations-Keeps :
      (now : Option ℕ) → Keeps P (release_expired_reservations env now)
  unfolding release_expired_reservations
  release_expired_reservations-Keeps now s =
      let t : ℕ = elim now [ none ↦ env.now | some n ↦ n ] in
      expire_each-Keeps t 0 (pks (select (overdue t) s.reservations)) s
