-- ===== src/Checkout/Saga/Compensation.antt =====
-- apps/orders/checkout.py: a checkout that fails leaves nothing behind.
use tip_metro_drip_ecommerce.Base.{
  ℕ, ◌≡◌, ◌≢◌, refl, sym, ◌∙◌, subst, String, str_eq, Bool, not, ◌||◌, Option, none, some, List,
  Dict, if◌then◌else◌, Option-cases, Bool-cases, inl, inr, ◌⊎◌,
}
use tip_metro_drip_ecommerce.Base.Action.{
  Result, ok, err, pure, raise, gets, or_raise, ◌>>=◌, ◌>>◌, modify, raise_if,
}
use tip_metro_drip_ecommerce.Base.Invert.{bind_ok, bind_err, call_cases}
use tip_metro_drip_ecommerce.Orders.{Columns}
use tip_metro_drip_ecommerce.Checkout.{CartLine, parse_items}
use tip_metro_drip_ecommerce.Checkout.Saga.{
  StockFailure, insufficient_stock, reservation_unavailable, refused, Failure, checkout_error,
  stock, payment_session_error, released, unknown, StockLedger, Shop, Env, Saga, catch, on_ledger,
  release_quietly, build_each, cancel_quietly, abandon, after_reserve, reserve, open_session,
  columns_of, mark_holds, secure, place_order, all_priced,
}
use tip_metro_drip_ecommerce.Checkout.Saga.Steps.{
  IsStockLedger, IsFreed, catch_ok, catch_err, cancel_quietly_cases, on_ledger_ok, on_ledger_err,
  release_quietly_cases, release_and_raise_cases, build_each_cases,
}

module _ {L : Type 0} (ops : StockLedger L) (held : String → L → ℕ) (laws : IsStockLedger ops held)
    (env : Env) where
  -- A failure leaves the tables as in `s`, or it is one of the payment session; in both cases the
  -- stock is freed.
  abbrev pub IsUndone : Shop L → Failure → Shop L → Type 0
  IsUndone s x t =
      IsFreed ops held laws env.checkout_id t.ledger
      × ((x ≡ payment_session_error) ⊎ (t ≡ record s { ledger = t.ledger }))

  abbrev Outcome : {A : Type 0} → Shop L → Result Failure A × Shop L → Type 0
  Outcome {A} s p =
      ((a : A) × (t : Shop L) × (p ≡ (ok a, t)))
      ⊎ ((x : Failure) × (t : Shop L) × (p ≡ (err x, t)) × IsUndone s x t)

  reserve_cases :
      (d : Dict ℕ) (s : Shop L)
      → held env.checkout_id s.ledger ≡ 0
      → ((u : L) × (reserve ops env d s ≡ (ok tt, record s { ledger = u })))
        ⊎ ((x : Failure) × (t : Shop L) × (reserve ops env d s ≡ (err x, t)) × IsUndone s x t)
  unfolding reserve
  reserve_cases d s z = elim (call_cases (ops.reserve_lines env.checkout_id d s.ledger)) [
    | inl (a, u, e) ↦ inl (
      u,
      catch_ok s (on_ledger (ops.reserve_lines env.checkout_id d))
          (after_reserve ops env.checkout_id)
          (on_ledger_ok s (ops.reserve_lines env.checkout_id d) e),
    )
    | inr (x, u, e) ↦ inr (go x u e)
  ]
    where
      raised :
          (x : StockFailure) (u : L)
          → ops.reserve_lines env.checkout_id d s.ledger ≡ (err x, u)
          → catch
              (on_ledger (ops.reserve_lines env.checkout_id d))
              (after_reserve ops env.checkout_id)
              s
            ≡ after_reserve ops env.checkout_id (stock x) (record s { ledger = u })
      raised x u e =
          catch_err s (on_ledger (ops.reserve_lines env.checkout_id d))
            (after_reserve ops env.checkout_id)
            (on_ledger_err s (ops.reserve_lines env.checkout_id d) e)

      go :
          (x : StockFailure) (u : L)
          → ops.reserve_lines env.checkout_id d s.ledger ≡ (err x, u)
          → (y : Failure) × (t : Shop L) × (catch
                (on_ledger (ops.reserve_lines env.checkout_id d))
                (after_reserve ops env.checkout_id)
                s
              ≡ (err y, t))
            × IsUndone s y t
      go insufficient_stock u e = (
        stock insufficient_stock,
        record s { ledger = u },
        raised insufficient_stock u e,
        (
          inl (laws.all_or_nothing env.checkout_id d s.ledger u insufficient_stock (λ q. cc) e ∙ z),
          inr refl,
        ),
      )
      go refused u e = (
        stock refused,
        record s { ledger = u },
        raised refused u e,
        (inl (laws.all_or_nothing env.checkout_id d s.ledger u refused (λ q. cc) e ∙ z), inr refl),
      )
      go reservation_unavailable u e =
          let (v, r, f) =
            release_and_raise_cases ops held laws env.checkout_id (stock reservation_unavailable)
              (record s { ledger = u }) in
          (
            stock reservation_unavailable,
            record s { ledger = v },
            raised reservation_unavailable u e ∙ r,
            (f, inr refl),
          )

  abandon_cases :
      (k : ℕ) (c : Columns) (s : Shop L)
      → (t : Shop L) × (abandon ops env k c s ≡ (err payment_session_error, t))
        × IsFreed ops held laws env.checkout_id t.ledger
  unfolding abandon
  abandon_cases k c s =
      let (b, u, e, f) = release_quietly_cases ops held laws env.checkout_id s in
      let marked = record s {
        ledger = u;
        holds = mark_holds k (if b then released else unknown) s.holds;
      } in
      let (o, g) = cancel_quietly_cases k c marked in
      (
        record marked { orders = o },
        bind_ok (release_quietly ops env.checkout_id) (rest k c) s e
            ∙ bind_ok (cancel_quietly k c) (λ _. raise payment_session_error) marked g,
        f,
      )
    where
      rest : ℕ → Columns → Bool → Saga L String
      rest k c b =
          modify (λ s. record s { holds = mark_holds k (if b then released else unknown) s.holds })
          >> (cancel_quietly k c >> raise payment_session_error)

  open_session_cases :
      (k : ℕ) (s : Shop L)
      → ((a : ℕ × String) × (open_session ops env k s ≡ (ok a, s)))
        ⊎ ((t : Shop L) × (open_session ops env k s ≡ (err payment_session_error, t))
            × IsFreed ops held laws env.checkout_id t.ledger)
  unfolding open_session
  open_session_cases k s = go (env.session k)
    where
      go :
          (o : Option String)
          → let m = elim o as (λ _. Saga L (ℕ × String)) [
            | some url ↦ pure (k, url)
            | none ↦
                (gets (λ s. columns_of k s.orders) >>= λ c.
                abandon ops env k c >>= λ url. pure (k, url))
          ] in
            ((a : ℕ × String) × (m s ≡ (ok a, s)))
            ⊎ ((t : Shop L) × (m s ≡ (err payment_session_error, t))
                × IsFreed ops held laws env.checkout_id t.ledger)
      go (some url) = inl ((k, url), refl)
      go none =
          let (t, e, f) = abandon_cases k (columns_of k s.orders) s in
          inr
            (t, bind_err (abandon ops env k (columns_of k s.orders)) (λ url. pure (k, url)) s e, f)

  secure_cases :
      (d : Dict ℕ) (fee : ℕ) (s : Shop L)
      → held env.checkout_id s.ledger ≡ 0
      → Outcome s (secure ops env d fee s)
  unfolding secure
  secure_cases d fee s z = elim (reserve_cases d s z) [
    | inr (x, t, e, h) ↦ inr (x, t, bind_err (reserve ops env d) (λ _. build) s e, h)
    | inl (u, e) ↦ elim (build_each_cases ops held laws env d fee 2 1 (record s { ledger = u })) [
      | inr (x, v, g, f) ↦ inr (
        x,
        record s { ledger = v },
        bind_ok (reserve ops env d) (λ _. build) s e
            ∙ bind_err tries (open_session ops env) (record s { ledger = u }) g,
        (f, inr refl),
      )
      | inl (k, t, g) ↦
          let reached =
            bind_ok (reserve ops env d) (λ _. build) s e
            ∙ bind_ok tries (open_session ops env) (record s { ledger = u }) g in
          elim (open_session_cases k t) [
            | inl (a, h) ↦ inl (a, t, reached ∙ h)
            | inr (w, h, f) ↦ inr (payment_session_error, w, reached ∙ h, (f, inl refl))
          ]
    ]
  ]
    where
      tries : Saga L ℕ
      tries = build_each ops env d fee 2 1

      build : Saga L (ℕ × String)
      build = tries >>= open_session ops env

  zone_cases :
      (d : Dict ℕ) (zone : Option ℕ) (s : Shop L)
      → held env.checkout_id s.ledger ≡ 0
      → Outcome s (
          (or_raise checkout_error zone >>= λ fee.
          raise_if (not (all_priced env.prices d)) checkout_error >> secure ops env d fee)
            s)
  zone_cases d none s z = inr (checkout_error, s, refl, (inl z, inr refl))
  zone_cases d (some fee) s z = elim (Bool-cases (all_priced env.prices d)) [
    | inr p ↦ rw p (inr (checkout_error, s, refl, (inl z, inr refl)))
    | inl p ↦ rw p (secure_cases d fee s z)
  ]

  place_order_cases :
      (items : Option (List CartLine)) (s : Shop L)
      → held env.checkout_id s.ledger ≡ 0
      → Outcome s (place_order ops env items s)
  unfolding place_order
  place_order_cases items s z = elim (Option-cases (parse_items items)) [
    | inl n ↦ rw n (inr (checkout_error, s, refl, (inl z, inr refl)))
    | inr (d, n) ↦ elim (Bool-cases (str_eq env.name "" || str_eq env.email "")) [
      | inl b ↦ rw (n, b) (inr (checkout_error, s, refl, (inl z, inr refl)))
      | inr b ↦ rw (n, b) (zone_cases d env.zone_fee s z)
    ]
  ]

  -- If the ledger holds nothing under its `checkout_id` before, a checkout that raises, at whatever
  -- step, leaves no unit of stock held under its `checkout_id`,
  -- or the ledger itself refused the release; and it leaves no row, no counter and no receipt
  -- behind, unless it is the payment session that failed.
  pub place_order-IsUndone :
      (items : Option (List CartLine)) (s : Shop L) {x : Failure} {t : Shop L}
      → held env.checkout_id s.ledger ≡ 0
      → place_order ops env items s ≡ (err x, t)
      → IsUndone s x t
  place_order-IsUndone items s {x} {t} z e = elim (place_order_cases items s z) [
    | inl (a, u, g) ↦ absurd (ok≢err (sym g ∙ e))
    | inr (y, u, g, h) ↦ subst (λ (p : Result Failure (ℕ × String) × Shop L). told p) (sym g ∙ e) h
  ]
    where
      told : Result Failure (ℕ × String) × Shop L → Type 0
      told (ok a, u) = Unit
      told (err y, u) = IsUndone s y u

      ok≢err :
          {a : ℕ × String} {u : Shop L}
          → ◌≢◌ {A = Result Failure (ℕ × String) × Shop L} (ok a, u) (err x, t)
      ok≢err q = cc
