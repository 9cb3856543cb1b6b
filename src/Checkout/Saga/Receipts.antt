-- ===== src/Checkout/Saga/Receipts.antt =====
-- apps/orders/checkout.py: the receipts of an order whose payment session failed.
use tip_metro_drip_ecommerce.Base.{
  ℕ, ◌≡◌, refl, ◌∙◌, String, Bool, true, false, ◌⊎◌, inl, inr, if◌then◌else◌,
}
use tip_metro_drip_ecommerce.Base.Action.{ok, err, raise, ◌>>=◌, ◌>>◌, modify}
use tip_metro_drip_ecommerce.Base.Invert.{bind_ok}
use tip_metro_drip_ecommerce.Orders.{Columns, Table}
use tip_metro_drip_ecommerce.Checkout.Saga.{
  StockFailure, payment_session_error, released, unknown, StockLedger, Shop, Env, Saga,
  release_quietly, cancel_quietly, abandon, mark_holds,
}
use tip_metro_drip_ecommerce.Checkout.Saga.Steps.{
  IsStockLedger, release_quietly_runs, cancel_quietly_cases,
}

module _ {L : Type 0} (ops : StockLedger L) (held : String → L → ℕ) (laws : IsStockLedger ops held)
    (env : Env) where
  -- The receipts of the order say `released`, and the ledger holds nothing; or they say `unknown`, and
  -- the ledger refused the release and is as that call left it.
  abbrev pub Tells : ℕ → Shop L → Shop L → Type 0
  Tells k s t =
      ((t.holds ≡ mark_holds k released s.holds) × (held env.checkout_id t.ledger ≡ 0))
      ⊎ ((t.holds ≡ mark_holds k unknown s.holds)
          × ((x : StockFailure) × (ops.release_holds env.checkout_id s.ledger ≡ (err x, t.ledger))))

  -- With a ledger that keeps its laws, the compensation after a failed payment session always ends
  -- with `PaymentSessionError`, whatever the ledger and the cancellation do, and the receipts that
  -- it leaves are true.
  pub abandon-Tells :
      (k : ℕ) (c : Columns) (s : Shop L)
      → (t : Shop L) × (abandon ops env k c s ≡ (err payment_session_error, t))
        × Tells k s t
        × (t.items ≡ s.items)
        × (t.numbers ≡ s.numbers)
  unfolding abandon
  abandon-Tells k c s = elim (release_quietly_runs ops env.checkout_id s) [
    | inl (u, e, r) ↦
        let (o, g) = cancel_quietly_cases k c (marked true u) in
        (
          record (marked true u) { orders = o },
          finish true u o r g,
          inl (refl, laws.gives_back env.checkout_id s.ledger u e),
          refl,
          refl,
        )
    | inr (x, u, e, r) ↦
        let (o, g) = cancel_quietly_cases k c (marked false u) in
        (
          record (marked false u) { orders = o },
          finish false u o r g,
          inr (refl, (x, e)),
          refl,
          refl,
        )
  ]
    where
      marked : Bool → L → Shop L
      marked b u = record s {
        ledger = u;
        holds = mark_holds k (if b then released else unknown) s.holds;
      }

      rest : Bool → Saga L String
      rest b =
          modify (λ s. record s { holds = mark_holds k (if b then released else unknown) s.holds })
          >> (cancel_quietly k c >> raise payment_session_error)

      finish :
          (b : Bool) (u : L) (o : Table)
          → release_quietly ops env.checkout_id s ≡ (ok b, record s { ledger = u })
          → cancel_quietly k c (marked b u) ≡ (ok tt, record (marked b u) { orders = o })
          → (release_quietly ops env.checkout_id >>= rest) s
            ≡ (err payment_session_error, record (marked b u) { orders = o })
      finish b u o r g =
          bind_ok (release_quietly ops env.checkout_id) rest s r
          ∙ bind_ok (cancel_quietly k c) (λ _. raise payment_session_error) (marked b u) g
