-- ===== src/Payments/Holds/Reconcile.antt =====
-- apps/payments/holds.py: `reconcile_unknown_holds`, over a ledger that answers.
use tip_metro_drip_ecommerce.Base.{
  ℕ, zero, suc, ◌+◌, ◌≡◌, refl, sym, ap, ◌∙◌, String, Bool, true, false, List, [], ◌∷◌, ◌++◌, Dict,
  if◌then◌else◌, arith,
}
use tip_metro_drip_ecommerce.Base.Action.{Result, ok, gets, ◌>>=◌}
use tip_metro_drip_ecommerce.Checkout.Saga.{StockFailure, StockHold, committed}
use tip_metro_drip_ecommerce.Payments.{PaymentError, StockRoom, Books, Pay}
use tip_metro_drip_ecommerce.Payments.Holds.{
  Env, is_unknown, answered, order_no_of, after_sweep, sweep_each, reconcile_unknown_holds,
}

-- The first unknown receipts committed, at most as many as the limit, and all else as it was.
unfoldable pub settle_first : ℕ → List StockHold → List StockHold
settle_first limit [] = []
settle_first zero (h ∷ hs) = h ∷ hs
settle_first (suc limit) (h ∷ hs) =
    if is_unknown h.state
    then record h { state = committed } ∷ settle_first limit hs
    else h ∷ settle_first (suc limit) hs

unfoldable pub unknown_within : ℕ → List StockHold → ℕ
unknown_within limit [] = 0
unknown_within zero (h ∷ hs) = 0
unknown_within (suc limit) (h ∷ hs) =
    if is_unknown h.state then 1 + unknown_within limit hs else unknown_within (suc limit) hs

snoc-append :
    (done : List StockHold) (h : StockHold) (hs : List StockHold)
    → (done ++ h ∷ []) ++ hs ≡ done ++ h ∷ hs
snoc-append [] h hs = refl
snoc-append (x ∷ xs) h hs = ap (λ (r : List StockHold). x ∷ r) (snoc-append xs h hs)

module _ {L : Type 0} (ops : StockRoom L) (env : Env)
    (answers : (c order_no : String) (k : ℕ) (u : L)
      → (r : Dict ℕ) × (v : L) × (ops.commit_holds c order_no k u ≡ (ok r, v))) where
  abbrev Swept :
      ℕ → ℕ → List StockHold → List StockHold → Books L → Result PaymentError ℕ × Books L → Type 0
  Swept limit n done hs s p =
      (t : Books L) × (p ≡ (ok (n + unknown_within limit hs), t))
      × (t.holds ≡ done ++ settle_first limit hs)
      × (t.orders ≡ s.orders)

  sweep_each_answered :
      (limit n : ℕ) (done hs : List StockHold) (s : Books L)
      → s.holds ≡ done ++ hs
      → Swept limit n done hs s (sweep_each ops env limit n done hs s)
  unfolding sweep_each settle_first unknown_within after_sweep
  sweep_each_answered limit n done [] s at = (s, ap (λ (m : ℕ). (ok m, s)) (omega arith), at, refl)
  sweep_each_answered zero n done (h ∷ hs) s at =
      (s, ap (λ (m : ℕ). (ok m, s)) (omega arith), at, refl)
  sweep_each_answered (suc limit) n done (h ∷ hs) s at =
      from (is_unknown h.state)
        (λ v.
          sweep_each_answered limit (n + 1) (done ++ settled ∷ []) hs
            (record s { ledger = v; holds = done ++ settled ∷ hs })
            (sym (snoc-append done settled hs)))
        (sweep_each_answered (suc limit) n (done ++ h ∷ []) hs s (at ∙ sym (snoc-append done h hs)))
    where
      settled : StockHold
      settled = record h { state = committed }

      order_no : String
      order_no = order_no_of ops env h.order_id s

      asked : Pay L ℕ
      asked = do
        order_no ← gets (order_no_of ops env h.order_id)
        answer ← answered ops env (ops.commit_holds h.checkout_id order_no h.order_id)
        (h', one) ← after_sweep ops env done h hs answer
        sweep_each ops env limit (n + one) (done ++ h' ∷ []) hs

      answer_of : Result StockFailure (Dict ℕ) × L → Result PaymentError ℕ × Books L
      answer_of p =
          (after_sweep ops env done h hs p.0 >>= λ (h', one).
          sweep_each ops env limit (n + one) (done ++ h' ∷ []) hs)
            (record s { ledger = p.1 })

      from :
          (b : Bool)
          → ((v : L)
              → Swept limit
                  (n + 1)
                  (done ++ settled ∷ [])
                  hs
                  (record s { ledger = v; holds = done ++ settled ∷ hs })
                  (sweep_each ops env limit
                    (n + 1)
                    (done ++ settled ∷ [])
                    hs
                    (record s { ledger = v; holds = done ++ settled ∷ hs })))
          → Swept
              (suc limit)
              n
              (done ++ h ∷ [])
              hs
              s
              (sweep_each ops env (suc limit) n (done ++ h ∷ []) hs s)
          → (t : Books L) × ((if b
                  then asked
                  else sweep_each ops env (suc limit) n (done ++ h ∷ []) hs)
                s
              ≡ (
                ok (n + (if b then 1 + unknown_within limit hs else unknown_within (suc limit) hs)),
                t,
              ))
            × (t.holds
                ≡ done
                  ++ (if b
                      then settled ∷ settle_first limit hs
                      else h ∷ settle_first (suc limit) hs))
            × (t.orders ≡ s.orders)
      from true taken passed =
          let (r, v, e) = answers h.checkout_id order_no h.order_id s.ledger in
          let (t, done_, holds, orders) = taken v in
          (
            t,
            ap answer_of e ∙ (done_ ∙ ap (λ (m : ℕ). (ok m, t)) (omega arith)),
            holds ∙ snoc-append done settled (settle_first limit hs),
            orders,
          )
      from false taken passed =
          let (t, done_, holds, orders) = passed in
          (t, done_, holds ∙ snoc-append done h (settle_first (suc limit) hs), orders)

  -- If the stock ledger answers every commit, one sweep resolves the receipts that are `unknown`, in
  -- the order of the table and at most `limit` of them: it returns their number, each of them is
  -- committed, and every other receipt and all orders are as before.
  pub reconcile_unknown_holds_lem :
      (limit : ℕ) (s : Books L)
      → (t : Books L) × (reconcile_unknown_holds ops env limit s
          ≡ (ok (unknown_within limit s.holds), t))
        × (t.holds ≡ settle_first limit s.holds)
        × (t.orders ≡ s.orders)
  unfolding reconcile_unknown_holds
  reconcile_unknown_holds_lem limit s =
      let (t, done, holds, orders) = sweep_each_answered limit 0 [] s.holds s refl in
      (t, done ∙ ap (λ (m : ℕ). (ok m, t)) (omega arith), holds, orders)
