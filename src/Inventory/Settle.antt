-- ===== src/Inventory/Settle.antt =====
-- apps/inventory/providers/local.py: how a hold ends, in a sale, a release or the expiry sweep
pub mod Invariants
use tip_metro_drip_ecommerce.Base.{
  ℕ, ◌+◌, ◌-◌, neg_ℤ, String, Bool, true, false, not, ◌&&◌, ◌||◌, Option, none, some, List, [], ◌∷◌,
  Dict, lookup, insert, select, ltb, leb, if◌then◌else◌,
}
use tip_metro_drip_ecommerce.Base.Action.{
  ok, err, pure, raise, gets, atomic, ◌>>=◌, ◌>>◌, modify, raise_if,
}
use tip_metro_drip_ecommerce.Inventory.{
  is_active, ReservationStatus, active, committed, released, expired, Reservation, sale, save_stock,
  save_reservation, create_movement,
}
use tip_metro_drip_ecommerce.Inventory.Provider.{
  invalid_reservation_state, Call, Env, get_stock, get_reservation, end_active, in_group,
  same_order,
}

abbrev pub sold : Env → Option ℕ → Reservation → Reservation
sold env order_id r = record r { status = committed; order_id = order_id; ended_at = some env.now }

-- `commit_reservation`: an ACTIVE hold becomes a sale, with its movement.
unfoldable pub sell : Env → Option ℕ → Reservation → Call Reservation
unfolding get_stock
sell env order_id r = do
  raise_if (not (is_active r.status)) invalid_reservation_state
  stock ← get_stock r.variant_id
  raise_if (ltb stock.qty_on_hand r.qty || ltb stock.qty_reserved r.qty) invalid_reservation_state
  modify (
      save_stock r.variant_id (record stock {
        qty_on_hand = stock.qty_on_hand - r.qty;
        qty_reserved = stock.qty_reserved - r.qty;
      }))
  modify (
      create_movement (record {
        variant_id = r.variant_id;
        delta = neg_ℤ r.qty;
        reason = sale;
        ref_order_id = order_id;
      }))
  modify (save_reservation r.pk (sold env order_id r))
  pure (sold env order_id r)

unfoldable pub commit_reservation : Env → ℕ → Option ℕ → Call Reservation
unfolding get_reservation sell
commit_reservation env k order_id = atomic (get_reservation k >>= sell env order_id)

-- `committed[variant_id] = committed.get(variant_id, 0) + qty`
abbrev pub tally : ℕ → ℕ → Dict ℕ → Dict ℕ
tally v qty d = insert v (elim (lookup v d) [ none ↦ qty | some n ↦ n + qty ]) d

pub commit_one : Env → Option ℕ → Dict ℕ → Reservation → ReservationStatus → Call (Dict ℕ)
commit_one env order_id d r committed =
    raise_if (not (same_order r.order_id order_id)) invalid_reservation_state
    >> pure (tally r.variant_id r.qty d)
commit_one env order_id d r active =
    commit_reservation env r.pk order_id >> pure (tally r.variant_id r.qty d)
commit_one env order_id d r released = pure d
commit_one env order_id d r expired = pure d

pub commit_each : Env → Option ℕ → Dict ℕ → List Reservation → Call (Dict ℕ)
unfolding commit_one
commit_each env order_id d [] = pure d
commit_each env order_id d (r ∷ rs) =
    commit_one env order_id d r r.status >>= λ d'. commit_each env order_id d' rs

unfoldable pub commit_holds : Env → String → Option ℕ → Call (Dict ℕ)
unfolding commit_each
commit_holds env checkout_id order_id =
    atomic
      (gets (λ s. select (in_group checkout_id) s.reservations) >>= commit_each env order_id [])

unfoldable pub release : Env → Reservation → ReservationStatus → Call Reservation
unfolding end_active
release env r released = pure r
release env r expired = pure r
release env r committed = raise invalid_reservation_state
release env r active = end_active env r released

unfoldable pub release_reservation : Env → ℕ → Call Reservation
unfolding get_reservation release
release_reservation env k = atomic (get_reservation k >>= λ r. release env r r.status)

abbrev pub pks : List Reservation → List ℕ
pks [] = []
pks (r ∷ rs) = r.pk ∷ pks rs

-- Each release is a transaction of its own: one that raises leaves those before it done.
unfoldable pub release_each : Env → ℕ → List ℕ → Call ℕ
release_each env n [] = pure n
release_each env n (k ∷ ks) = release_reservation env k >>= λ _. release_each env (n + 1) ks

unfoldable pub release_holds : Env → String → Call ℕ
unfolding release_each
release_holds env checkout_id =
    gets (λ s. pks (select (λ r. in_group checkout_id r && is_active r.status) s.reservations))
    >>= release_each env 0

-- The sweep's step for one key: the row is read again under its lock.
pub expire_locked : Env → ℕ → Reservation → Call Bool
unfolding end_active
expire_locked env now r =
    if not (is_active r.status) || ltb now r.expires_at
    then pure false
    else (end_active env r expired >> pure true)

-- `except Exception`: logged, and the sweep goes on.
abbrev pub or_false : Call Bool → Call Bool
or_false m s = elim (m s).0 [ ok b ↦ (ok b, (m s).1) | err e ↦ (ok false, (m s).1) ]

pub expire_one : Env → ℕ → ℕ → Call Bool
unfolding expire_locked get_reservation
expire_one env now k = or_false (atomic (get_reservation k >>= expire_locked env now))

pub expire_each : Env → ℕ → ℕ → List ℕ → Call ℕ
unfolding expire_one
expire_each env now n [] = pure n
expire_each env now n (k ∷ ks) =
    expire_one env now k >>= λ done. expire_each env now (if done then n + 1 else n) ks

abbrev pub overdue : ℕ → Reservation → Bool
overdue now r = is_active r.status && leb r.expires_at now

unfoldable pub release_expired_reservations : Env → Option ℕ → Call ℕ
unfolding expire_each
release_expired_reservations env now =
    let t : ℕ = elim now [ none ↦ env.now | some n ↦ n ] in
    gets (λ s. pks (select (overdue t) s.reservations)) >>= expire_each env t 0
