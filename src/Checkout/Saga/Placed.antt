-- ===== src/Checkout/Saga/Placed.antt =====
-- apps/orders/checkout.py: what a checkout that returns has written.
use tip_metro_drip_ecommerce.Base.{
  ℕ, ◌≡◌, ◌≢◌, refl, sym, ◌∙◌, subst, String, str_eq, Bool, true, false, not, ◌||◌, Option, none,
  some, List, Dict, if◌then◌else◌, inl, inr, ◌⊎◌, arith,
}
use tip_metro_drip_ecommerce.Base.Action.{
  Result, ok, err, pure, raise, gets, or_raise, ◌>>=◌, ◌>>◌, modify, raise_if,
}
use tip_metro_drip_ecommerce.Base.Invert.{bind_ok, bind_err, or_raise_inv, raise_if_inv}
use tip_metro_drip_ecommerce.Orders.{Columns}
use tip_metro_drip_ecommerce.Checkout.{CartLine, parse_items}
use tip_metro_drip_ecommerce.Checkout.Saga.{
  checkout_error, Failure, StockLedger, Shop, Env, Saga, build_each, abandon, reserve, open_session,
  columns_of, secure, place_order, all_priced,
}
use tip_metro_drip_ecommerce.Checkout.Saga.{
  cancel_quietly, mark_holds, released, unknown, release_quietly, payment_session_error,
  checkout_error,
}
use tip_metro_drip_ecommerce.Checkout.Saga.Steps.{release_quietly_runs, cancel_quietly_cases}
use tip_metro_drip_ecommerce.Checkout.Saga.Building.{
  ordered, IsNumbered, reserve_made, build_each-Made,
}

module _ {L : Type 0} (ops : StockLedger L) (env : Env) where
  abandon_raises :
      (k : ℕ) (c : Columns) (s : Shop L)
      → (t : Shop L) × (abandon ops env k c s ≡ (err payment_session_error, t))
  unfolding abandon
  abandon_raises k c s = elim (release_quietly_runs ops env.checkout_id s) [
    | inl (u, e, r) ↦ finish true u r
    | inr (x, u, e, r) ↦ finish false u r
  ]
    where
      rest : Bool → Saga L String
      rest b =
          modify (λ s. record s { holds = mark_holds k (if b then released else unknown) s.holds })
          >> (cancel_quietly k c >> raise payment_session_error)

      finish :
          (b : Bool) (u : L)
          → release_quietly ops env.checkout_id s ≡ (ok b, record s { ledger = u })
          → (t : Shop L) × ((release_quietly ops env.checkout_id >>= rest) s
              ≡ (err payment_session_error, t))
      finish b u r =
          let marked = record s {
            ledger = u;
            holds = mark_holds k (if b then released else unknown) s.holds;
          } in
          let (o, g) = cancel_quietly_cases k c marked in
          (
            record marked { orders = o },
            bind_ok (release_quietly ops env.checkout_id) rest s r
                ∙ bind_ok (cancel_quietly k c) (λ _. raise payment_session_error) marked g,
          )

  open_session_made :
      (k : ℕ) (s : Shop L)
      → ((url : String) × (env.session k ≡ some url)
          × (open_session ops env k s ≡ (ok (k, url), s)))
        ⊎ ((x : Failure) × (t : Shop L) × (open_session ops env k s ≡ (err x, t)))
  unfolding open_session
  open_session_made k s = go (env.session k)
    where
      go :
          (o : Option String)
          → let m = elim o as (λ _. Saga L (ℕ × String)) [
            | some url ↦ pure (k, url)
            | none ↦
                (gets (λ s. columns_of k s.orders) >>= λ c.
                abandon ops env k c >>= λ url. pure (k, url))
          ] in
            ((url : String) × (o ≡ some url) × (m s ≡ (ok (k, url), s)))
            ⊎ ((x : Failure) × (t : Shop L) × (m s ≡ (err x, t)))
      go (some url) = inl (url, refl, refl)
      go none =
          let (t, e) = abandon_raises k (columns_of k s.orders) s in
          inr (
            payment_session_error,
            t,
            bind_err (abandon ops env k (columns_of k s.orders)) (λ url. pure (k, url)) s e,
          )

  -- The stock of the cart was reserved once, under the `checkout_id`, and nothing was released; one
  -- order was appended to the table, pending, with the number that `next_order_no` gave for the
  -- year, whose counter has moved on, and with the total of the prices and the fee; its lines and one active receipt were appended; the session
  -- is the provider's.
  abbrev pub IsPlaced : Dict ℕ → ℕ → Shop L → ℕ × String → Shop L → Type 0
  IsPlaced d fee s (k, url) t =
      (label : String) × (n : Dict ℕ) × IsNumbered env d fee label n s
      × (u : L) × (ops.reserve_lines env.checkout_id d s.ledger ≡ (ok tt, u))
      × (k ≡ s.orders.next_pk)
      × (t ≡ ordered env d fee label n (record s { ledger = u }))
      × (env.session k ≡ some url)

  secure_made :
      (d : Dict ℕ) (fee : ℕ) (s : Shop L)
      → ((a : ℕ × String) × (t : Shop L) × (secure ops env d fee s ≡ (ok a, t))
          × IsPlaced d fee s a t)
        ⊎ ((x : Failure) × (t : Shop L) × (secure ops env d fee s ≡ (err x, t)))
  unfolding secure
  secure_made d fee s = elim (reserve_made ops env d fee s) [
    | inr (x, t, e) ↦ inr (x, t, bind_err (reserve ops env d) (λ _. build) s e)
    | inl (u, given, e) ↦ elim (build_each-Made ops env d fee 2 1 (record s { ledger = u })) [
      | inr (x, t, g) ↦ inr (
        x,
        t,
        bind_ok (reserve ops env d) (λ _. build) s e
            ∙ bind_err tries (open_session ops env) (record s { ledger = u }) g,
      )
      | inl (label, n, numbered, g) ↦
          let reached =
            bind_ok (reserve ops env d) (λ _. build) s e
            ∙ bind_ok tries (open_session ops env) (record s { ledger = u }) g in
          let t = ordered env d fee label n (record s { ledger = u }) in
          elim (open_session_made s.orders.next_pk t) [
            | inl (url, session, h) ↦ inl (
              (s.orders.next_pk, url),
              t,
              reached ∙ h,
              (label, n, numbered, u, given, refl, refl, session),
            )
            | inr (x, w, h) ↦ inr (x, w, reached ∙ h)
          ]
    ]
  ]
    where
      tries : Saga L ℕ
      tries = build_each ops env d fee 2 1

      build : Saga L (ℕ × String)
      build = tries >>= open_session ops env

module _ {L : Type 0} (ops : StockLedger L) (env : Env) where
  -- A checkout that returns an order and its payment address: the cart was accepted as `d`, the zone
  -- has the fee, and the tables and the ledger are exactly as `IsPlaced` says.
  pub place_order-IsPlaced :
      (items : Option (List CartLine)) (s : Shop L) {a : ℕ × String} {t : Shop L}
      → place_order ops env items s ≡ (ok a, t)
      → (d : Dict ℕ) × (fee : ℕ) × (parse_items items ≡ some d)
        × (env.zone_fee ≡ some fee)
        × (all_priced env.prices d ≡ true)
        × IsPlaced ops env d fee s a t
  unfolding place_order
  place_order-IsPlaced items s {a} {t} e =
      let (d, parsed, e₁) = or_raise_inv (parse_items items) checkout_error contact s e in
      let (named, e₂) =
        raise_if_inv (str_eq env.name "" || str_eq env.email "") checkout_error (zoned d) s e₁ in
      let (fee, zone, e₃) = or_raise_inv env.zone_fee checkout_error (costed d) s e₂ in
      let (priced, e₄) =
        raise_if_inv (not (all_priced env.prices d)) checkout_error (secure ops env d fee) s e₃ in
      elim (secure_made ops env d fee s) [
        | inl (b, u, g, h) ↦
            (d, fee, parsed, zone, ground arith, subst (placed d fee) (sym g ∙ e₄) h)
        | inr (x, u, g) ↦ absurd (raised (sym g ∙ e₄))
      ]
    where
      costed : Dict ℕ → ℕ → Saga L (ℕ × String)
      costed d fee = raise_if (not (all_priced env.prices d)) checkout_error >> secure ops env d fee

      zoned : Dict ℕ → Saga L (ℕ × String)
      zoned d = or_raise checkout_error env.zone_fee >>= costed d

      contact : Dict ℕ → Saga L (ℕ × String)
      contact d = raise_if (str_eq env.name "" || str_eq env.email "") checkout_error >> zoned d

      placed : Dict ℕ → ℕ → Result Failure (ℕ × String) × Shop L → Type 0
      placed d fee (ok b, u) = IsPlaced ops env d fee s b u
      placed d fee (err x, u) = Unit

      raised :
          {x : Failure} {u : Shop L}
          → ◌≢◌ {A = Result Failure (ℕ × String) × Shop L} (err x, u) (ok a, t)
      raised q = cc
