-- ===== src/Payments/Holds/Delivery.antt =====
-- apps/payments/holds.py: `deliver_order_stock`, from the receipts and items of the order to what it
-- returns and leaves.
use tip_metro_drip_ecommerce.Base.{
  ℕ, ◌≡◌, refl, sym, ap, ◌∙◌, subst, String, str_eq, Bool, true, false, ◌&&◌, Option, none, some,
  List, [], ◌∷◌, Dict, lookup, ◌==◌, if◌then◌else◌, Bool-cases, inl, inr, ◌⊎◌, arith,
}
use tip_metro_drip_ecommerce.Base.Action.{Result, ok, err, pure, gets, ◌>>=◌, ◌>>◌, raise_if}
use tip_metro_drip_ecommerce.Base.Invert.{
  bind_inv, or_raise_inv, raise_if_inv, returned_value, returned_state,
}
use tip_metro_drip_ecommerce.Orders.{
  OrderStatus, pending, paid, packed, shipped, delivered, cancelled, refunded, Row,
}
use tip_metro_drip_ecommerce.Checkout.Saga.{reservation_unavailable, StockHold, StockHoldState}
use tip_metro_drip_ecommerce.Payments.{PaymentError, order_missing, stock, StockRoom, Books}
use tip_metro_drip_ecommerce.Payments.Holds.{
  Env, is_active, is_unknown, mark_active, has_unknown, consume_holds, deliver_paid, deliver_status,
  deliver_block, deliver_order_stock,
}
use tip_metro_drip_ecommerce.Payments.Holds.Kept.{IsKept, deliver_block-Keeps}

abbrev pub doubtful : StockHold → Bool
doubtful h = is_unknown h.state

-- The receipts whose outcome is not known.
unfoldable pub doubts : List StockHold → List StockHold
doubts [] = []
doubts (h ∷ hs) = if is_unknown h.state then h ∷ doubts hs else doubts hs

-- A mark leaves the doubts as they were, or the order has one now.
doubts-mark_active :
    (k : ℕ) (c : String) (state : StockHoldState) (hs : List StockHold)
    → is_active state ≡ false
    → (doubts (mark_active k c state hs) ≡ doubts hs)
      ⊎ (has_unknown k (mark_active k c state hs) ≡ true)
unfolding doubts mark_active has_unknown
doubts-mark_active k c state [] off = inl refl
doubts-mark_active k c state (h ∷ hs) off = elim (doubts-mark_active k c state hs off) [
  | inr e ↦ inr (ground arith)
  | inl e ↦ elim (Bool-cases (h.order_id == k && str_eq h.checkout_id c && is_active h.state)) [
    | inr other ↦
        rw other (inl (ap (λ (r : List StockHold). if is_unknown h.state then h ∷ r else r) e))
    | inl mine ↦ rw mine (elim (Bool-cases (is_unknown state)) [
      | inl lost ↦ inr (ground arith)
      | inr known ↦ let live : is_unknown h.state ≡ false = ground arith in rw (known, live) (inl e)
    ])
  ]
]

-- A doubt stays one.
has_unknown-mark_active :
    (k : ℕ) (c : String) (state : StockHoldState) (hs : List StockHold)
    → has_unknown k hs ≡ true
    → has_unknown k (mark_active k c state hs) ≡ true
unfolding mark_active has_unknown
has_unknown-mark_active k c state [] e = e
has_unknown-mark_active k c state (h ∷ hs) e = ground (arith, has_unknown-mark_active k c state hs)

abbrev Kept : ℕ → List StockHold → List StockHold → Type 0
Kept k before after = (doubts after ≡ doubts before) ⊎ (has_unknown k after ≡ true)

Kept-mark_active :
    (k : ℕ) (before : List StockHold) (c : String) (state : StockHoldState) (hs : List StockHold)
    → is_active state ≡ false
    → Kept k before hs
    → Kept k before (mark_active k c state hs)
Kept-mark_active k before c state hs off (inr e) = inr (has_unknown-mark_active k c state hs e)
Kept-mark_active k before c state hs off (inl e) = elim (doubts-mark_active k c state hs off) [
  | inl same ↦ inl (same ∙ e)
  | inr doubt ↦ inr doubt
]

module _ {L : Type 0} (ops : StockRoom L) (env : Env) where
  Kept-IsKept : (k : ℕ) (before : List StockHold) → IsKept {L = L} k (λ s. Kept k before s.holds)
  Kept-IsKept k before = record {
    ledger = λ u s h. h;
    outbox = λ o n s h. h;
    holds = λ c state s off h. Kept-mark_active k before c state s.holds off h;
  }

  -- A delivery that is paid returns with no doubt left.
  deliver_paid_inv :
      (k : ℕ) (order_no : String) (s : Books L) {r : Dict ℕ} {t : Books L}
      → deliver_paid ops env k order_no s ≡ (ok r, t)
      → (consume_holds ops env k order_no s ≡ (ok r, t)) × (has_unknown k t.holds ≡ false)
  unfolding deliver_paid
  deliver_paid_inv k order_no s {r} {t} e =
      let (sum, u, consumed, rest) =
        bind_inv (consume_holds ops env k order_no)
          (λ sum. gets (λ s. has_unknown k s.holds) >>= λ doubt.
            raise_if doubt (stock reservation_unavailable) >> pure sum)
          s e in
      let (known, end) =
        raise_if_inv (has_unknown k u.holds) (stock reservation_unavailable) (pure sum) u rest in
      (
        consumed ∙ end,
        subst (λ (v : Books L). has_unknown k v.holds ≡ false) (returned_state end) known,
      )

  deliver_status_inv :
      (k : ℕ) (order_no : String) (status : OrderStatus) (s : Books L) {r : Option (Dict ℕ)}
      {t : Books L}
      → deliver_status ops env k order_no status s ≡ (ok r, t)
      → ((r ≡ none) × (t ≡ s))
        ⊎ ((d : Dict ℕ) × (r ≡ some d) × (deliver_paid ops env k order_no s ≡ (ok d, t)))
  unfolding deliver_status
  deliver_status_inv k order_no status s {r} {t} = from status
    where
      returned :
          (deliver_paid ops env k order_no >>= λ sum. pure (some sum)) s ≡ (ok r, t)
          → ((r ≡ none) × (t ≡ s))
            ⊎ ((d : Dict ℕ) × (r ≡ some d) × (deliver_paid ops env k order_no s ≡ (ok d, t)))
      returned e =
          let (d, u, done, rest) =
            bind_inv (deliver_paid ops env k order_no) (λ sum. pure (some sum)) s e in
          inr (
            d,
            sym (returned_value rest),
            done ∙ ap (λ (v : Books L). (ok d, v)) (returned_state rest),
          )

      from :
          (st : OrderStatus)
          → deliver_status ops env k order_no st s ≡ (ok r, t)
          → ((r ≡ none) × (t ≡ s))
            ⊎ ((d : Dict ℕ) × (r ≡ some d) × (deliver_paid ops env k order_no s ≡ (ok d, t)))
      from cancelled e = inl (sym (returned_value e), sym (returned_state e))
      from refunded e = inl (sym (returned_value e), sym (returned_state e))
      from pending e = cc
      from paid e = returned e
      from packed e = returned e
      from shipped e = returned e
      from delivered e = returned e

  pub deliver_block_inv :
      (k : ℕ) (s : Books L) {r : Option (Dict ℕ)} {t : Books L}
      → deliver_block ops env k s ≡ (ok r, t)
      → ((r ≡ none) × (t ≡ s))
        ⊎ ((d : Dict ℕ) × (order_no : String) × (r ≡ some d)
            × (consume_holds ops env k order_no s ≡ (ok d, t))
            × (has_unknown k t.holds ≡ false))
  unfolding deliver_block
  deliver_block_inv k s e =
      let (row, found, e₁) =
        or_raise_inv (lookup k s.orders.rows) order_missing
          (λ (row : Row). deliver_status ops env k row.columns.order_no row.status) s e in
      elim (deliver_status_inv k row.columns.order_no row.status s e₁) [
        | inl early ↦ inl early
        | inr (d, some_d, done) ↦
            let (consumed, known) = deliver_paid_inv k row.columns.order_no s done in
            inr (d, row.columns.order_no, some_d, consumed, known)
      ]

  -- Whatever the ledger answers, and whether `deliver_order_stock` returns or raises, the receipts in
  -- the state `unknown` are the same after it as before: an uncertain commit raises in the transaction
  -- that has marked the receipt, which takes the mark back.
  pub deliver_order_stock-doubts :
      (k : ℕ) (s : Books L) → doubts (deliver_order_stock ops env k s).1.holds ≡ doubts s.holds
  unfolding deliver_order_stock
  deliver_order_stock-doubts k s =
      from (deliver_block ops env k s) refl
        (deliver_block-Keeps (Kept-IsKept k s.holds) ops env s (inl refl))
    where
      resolved :
          (t : Books L)
          → has_unknown k t.holds ≡ false
          → Kept k s.holds t.holds
          → doubts t.holds ≡ doubts s.holds
      resolved t known (inl e) = e
      resolved t known (inr doubt) = absurd (ground arith)

      from :
          (p : Result PaymentError (Option (Dict ℕ)) × Books L)
          → deliver_block ops env k s ≡ p
          → Kept k s.holds p.1.holds
          → doubts
              (elim p.0 as (λ _. Result PaymentError (Option (Dict ℕ)) × Books L) [
                | ok a ↦ (ok a, p.1)
                | err e ↦ (err e, record s { ledger = p.1.ledger })
              ]).1.holds
            ≡ doubts s.holds
      from (err e, t) at h = refl
      from (ok r, t) at h = elim (deliver_block_inv k s at) [
        | inl (z, same) ↦ ap (λ (v : Books L). doubts v.holds) same
        | inr (d, order_no, z, consumed, known) ↦ resolved t known h
      ]
