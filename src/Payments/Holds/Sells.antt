-- ===== src/Payments/Holds/Sells.antt =====
-- apps/payments/holds.py: what `reconcile_unknown_holds` does to the stock, over a ledger that answers.
use tip_metro_drip_ecommerce.Base.{
  ℕ, zero, suc, ◌+◌, ◌≡◌, sym, ap, subst, String, true, false, List, [], ◌∷◌, ◌++◌, All, Dict,
  if◌then◌else◌, Bool-cases, inl, inr, refl,
}
use tip_metro_drip_ecommerce.Base.Action.{Result, ok, ◌>>=◌}
use tip_metro_drip_ecommerce.Checkout.Saga.{StockFailure, StockHold, committed}
use tip_metro_drip_ecommerce.Payments.{PaymentError, StockRoom, Books}
use tip_metro_drip_ecommerce.Payments.Holds.{
  Env, is_unknown, order_no_of, after_sweep, sweep_each, reconcile_unknown_holds,
}

-- The receipts that a sweep takes: the unknown ones, at most as many as the limit.
abbrev pub taken : ℕ → List StockHold → List StockHold
taken limit [] = []
taken zero (h ∷ hs) = []
taken (suc limit) (h ∷ hs) =
    let rest = taken limit hs in
    let later = taken (suc limit) hs in if is_unknown h.state then h ∷ rest else later

-- What a ledger calls sold: a commit that returns sells the group to the order, and no commit takes
-- another sale back.
pub record Sales {L : Type 0} (ops : StockRoom L) (Sold : String → ℕ → L → Type 0) : Type 0 where
  pub commits :
      (c order_no : String) (k : ℕ) (u : L) {r : Dict ℕ} {v : L}
      → ops.commit_holds c order_no k u ≡ (ok r, v)
      → Sold c k v
  pub keeps :
      (c order_no : String) (k : ℕ) (u : L) {b : String} {j : ℕ}
      → Sold b j u
      → Sold b j (ops.commit_holds c order_no k u).1

module _ {L : Type 0} (ops : StockRoom L) (env : Env)
    (answers : (c order_no : String) (k : ℕ) (u : L)
      → (r : Dict ℕ) × (v : L) × (ops.commit_holds c order_no k u ≡ (ok r, v))) where
  -- The state after one receipt was committed.
  abbrev after_one : List StockHold → StockHold → List StockHold → L → Books L → Books L
  after_one done h hs v s = record s {
    ledger = v;
    holds = done ++ record h { state = committed } ∷ hs;
  }

  turn :
      (limit n : ℕ) (done : List StockHold) (h : StockHold) (hs : List StockHold) (s : Books L)
      → is_unknown h.state ≡ true
      → (r : Dict ℕ) × (v : L) × (ops.commit_holds h.checkout_id
            (order_no_of ops env h.order_id s)
            h.order_id
            s.ledger
          ≡ (ok r, v))
        × (sweep_each ops env (suc limit) n done (h ∷ hs) s
            ≡ sweep_each ops env limit
                (n + 1)
                (done ++ record h { state = committed } ∷ [])
                hs
                (after_one done h hs v s))
  unfolding sweep_each after_sweep
  turn limit n done h hs s doubt =
      let (r, v, e) =
        answers h.checkout_id (order_no_of ops env h.order_id s) h.order_id s.ledger in
      (r, v, e, rw doubt (ap answer_of e))
    where
      answer_of : Result StockFailure (Dict ℕ) × L → Result PaymentError ℕ × Books L
      answer_of p =
          (after_sweep ops env done h hs p.0 >>= λ (h', one).
          sweep_each ops env limit (n + one) (done ++ h' ∷ []) hs)
            (record s { ledger = p.1 })

  pass :
      (limit n : ℕ) (done : List StockHold) (h : StockHold) (hs : List StockHold) (s : Books L)
      → is_unknown h.state ≡ false
      → sweep_each ops env (suc limit) n done (h ∷ hs) s
        ≡ sweep_each ops env (suc limit) n (done ++ h ∷ []) hs s
  unfolding sweep_each
  pass limit n done h hs s known = rw known refl

  module _ {Sold : String → ℕ → L → Type 0} (sales : Sales ops Sold) where
    sweep_each-keeps :
        (limit n : ℕ) (done hs : List StockHold) (s : Books L) {b : String} {j : ℕ}
        → Sold b j s.ledger
        → Sold b j (sweep_each ops env limit n done hs s).1.ledger
    unfolding sweep_each
    sweep_each-keeps limit n done [] s sold = sold
    sweep_each-keeps zero n done (h ∷ hs) s sold = sold
    sweep_each-keeps (suc limit) n done (h ∷ hs) s {b} {j} sold =
        elim (Bool-cases (is_unknown h.state)) [
          | inl doubt ↦
              let (r, v, e, next) = turn limit n done h hs s doubt in
              subst (λ (p : Result PaymentError ℕ × Books L). Sold b j p.1.ledger) (sym next)
                (sweep_each-keeps limit (n + 1) (done ++ record h { state = committed } ∷ []) hs
                  (after_one done h hs v s)
                  (subst (λ (p : Result StockFailure (Dict ℕ) × L). Sold b j p.1) e
                    (sales.keeps h.checkout_id (order_no_of ops env h.order_id s) h.order_id
                      s.ledger sold)))
          | inr known ↦
              subst (λ (p : Result PaymentError ℕ × Books L). Sold b j p.1.ledger)
                (sym (pass limit n done h hs s known))
                (sweep_each-keeps (suc limit) n (done ++ h ∷ []) hs s sold)
        ]

    abbrev AllSold : List StockHold → L → Type 0
    AllSold hs u = All (λ h. Sold h.checkout_id h.order_id u) hs

    sweep_each-sells :
        (limit n : ℕ) (done hs : List StockHold) (s : Books L)
        → AllSold (taken limit hs) (sweep_each ops env limit n done hs s).1.ledger
    sweep_each-sells limit n done [] s = tt
    sweep_each-sells zero n done (h ∷ hs) s = tt
    sweep_each-sells (suc limit) n done (h ∷ hs) s = elim (Bool-cases (is_unknown h.state)) [
      | inl doubt ↦
          let (r, v, e, next) = turn limit n done h hs s doubt in
          let settled = done ++ record h { state = committed } ∷ [] in
          subst
            (λ (p : Result PaymentError ℕ × Books L).
              AllSold (taken (suc limit) (h ∷ hs)) p.1.ledger)
            (sym next)
            (rw doubt (
              sweep_each-keeps limit (n + 1) settled hs (after_one done h hs v s) (
                  sales.commits h.checkout_id (order_no_of ops env h.order_id s) h.order_id s.ledger
                    e),
              sweep_each-sells limit (n + 1) settled hs (after_one done h hs v s),
            ))
      | inr known ↦
          subst
            (λ (p : Result PaymentError ℕ × Books L).
              AllSold (taken (suc limit) (h ∷ hs)) p.1.ledger)
            (sym (pass limit n done h hs s known))
            (rw known (sweep_each-sells (suc limit) n (done ++ h ∷ []) hs s))
    ]

    -- Every receipt that a sweep takes has its group sold when the sweep is over.
    pub reconcile_unknown_holds-sells :
        (limit : ℕ) (s : Books L)
        → AllSold (taken limit s.holds) (reconcile_unknown_holds ops env limit s).1.ledger
    unfolding reconcile_unknown_holds
    reconcile_unknown_holds-sells limit s = sweep_each-sells limit 0 [] s.holds s
