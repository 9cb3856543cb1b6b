-- ===== src/Payments/Holds/Answers.antt =====
-- apps/payments/holds.py: the calls of the stock ledger behind the totals of a delivery.
use tip_metro_drip_ecommerce.Base.{
  ℕ, zero, suc, ◌+◌, ◌≡◌, refl, sym, subst, String, List, [], ◌∷◌, Dict, insert, inl, inr, ◌⊎◌,
}
use tip_metro_drip_ecommerce.Base.Action.{Result, ok, err}
use tip_metro_drip_ecommerce.Base.Invert.{bind_inv, returned_value}
use tip_metro_drip_ecommerce.Checkout.{quantity}
use tip_metro_drip_ecommerce.Checkout.Saga.{
  StockFailure, insufficient_stock, reservation_unavailable, refused,
}
use tip_metro_drip_ecommerce.Payments.{StockRoom, Books}
use tip_metro_drip_ecommerce.Payments.Holds.{
  Env, add_all, after_commit, consume_one, consume_each, replacement_id, replace, after_replace,
  cover_units,
}

module _ {L : Type 0} (ops : StockRoom L) (env : Env) (k : ℕ) (order_no : String) where
  -- The totals before and after these groups were committed, one call of the ledger for each: the
  -- units that it answered are added, and a group that it cannot speak of adds nothing.
  pub data IsConsumed : List String → Dict ℕ → Dict ℕ → Type 0 where
    no_group : {sum : Dict ℕ} → IsConsumed [] sum sum
    sold :
        {c : String} {cs : List String} {sum r end : Dict ℕ} {u v : L}
        → ops.commit_holds c order_no k u ≡ (ok r, v)
        → IsConsumed cs (add_all r sum) end
        → IsConsumed (c ∷ cs) sum end
    unanswered :
        {c : String} {cs : List String} {sum end : Dict ℕ} {u v : L}
        → ops.commit_holds c order_no k u ≡ (err reservation_unavailable, v)
        → IsConsumed cs sum end
        → IsConsumed (c ∷ cs) sum end

  -- The totals before and after shortfalls were replaced: for each that is added, the ledger has taken
  -- a reservation of that many units of that SKU and then the commit of it to the order.
  pub data IsReplaced (sum : Dict ℕ) : Dict ℕ → Type 0 where
    no_shortfall : IsReplaced sum sum
    replaced :
        {end r : Dict ℕ} {v n : ℕ} {u w x : L}
        → IsReplaced sum end
        → ops.reserve_lines (replacement_id ops env k v) ((v, n) ∷ []) u ≡ (ok tt, w)
        → ops.commit_holds (replacement_id ops env k v) order_no k w ≡ (ok r, x)
        → IsReplaced sum (insert v (quantity v end + n) end)

  pub IsReplaced-append : {a b c : Dict ℕ} → IsReplaced a b → IsReplaced b c → IsReplaced a c
  IsReplaced-append p no_shortfall = p
  IsReplaced-append p (replaced q taken sold_) = replaced (IsReplaced-append p q) taken sold_

  -- What one commit leaves in the totals.
  Turn : String → Dict ℕ → Dict ℕ → Type 0
  Turn c sum d =
      ((r : Dict ℕ) × (u : L) × (v : L) × (ops.commit_holds c order_no k u ≡ (ok r, v))
        × (add_all r sum ≡ d))
      ⊎ ((u : L) × (v : L) × (ops.commit_holds c order_no k u ≡ (err reservation_unavailable, v))
          × (sum ≡ d))

  consume_one_inv :
      (c : String) (sum : Dict ℕ) (s : Books L) {d : Dict ℕ} {t : Books L}
      → consume_one ops env k order_no c sum s ≡ (ok d, t)
      → Turn c sum d
  unfolding consume_one after_commit Turn
  consume_one_inv c sum s {d} {t} e = from _ (ops.commit_holds c order_no k s.ledger) refl _ e
    where
      from :
          (m : ℕ) (p : Result StockFailure (Dict ℕ) × L)
          → ops.commit_holds c order_no k s.ledger ≡ p
          → (b : Books L) → after_commit ops env k c m sum p.0 b ≡ (ok d, t)
          → Turn c sum d
      from m (ok r, v) at b h = inl (r, s.ledger, v, at, returned_value h)
      from m (err reservation_unavailable, v) at b h = inr (s.ledger, v, at, returned_value h)
      from m (err insufficient_stock, v) at b h = cc
      from m (err refused, v) at b h = cc

  pub consume_each-IsConsumed :
      (cs : List String) (sum : Dict ℕ) (s : Books L) {d : Dict ℕ} {t : Books L}
      → consume_each ops env k order_no cs sum s ≡ (ok d, t)
      → IsConsumed cs sum d
  unfolding consume_each Turn
  consume_each-IsConsumed [] sum s e = subst (IsConsumed [] sum) (returned_value e) no_group
  consume_each-IsConsumed (c ∷ cs) sum s {d} e =
      let (a, u, first, rest) =
        bind_inv (consume_one ops env k order_no c sum) (consume_each ops env k order_no cs) s e in
      let more = consume_each-IsConsumed cs a u rest in
      elim (consume_one_inv c sum s first) [
        | inl (r, x, y, at, new) ↦
            sold at (subst (λ (b : Dict ℕ). IsConsumed cs b d) (sym new) more)
        | inr (x, y, at, same) ↦
            unanswered at (subst (λ (b : Dict ℕ). IsConsumed cs b d) (sym same) more)
      ]

  pub cover_units-IsReplaced :
      (v n : ℕ) (sum : Dict ℕ) (s : Books L) {r : Dict ℕ} {t : Books L}
      → cover_units ops env k order_no v n sum s ≡ (ok r, t)
      → IsReplaced sum r
  unfolding cover_units after_replace
  cover_units-IsReplaced v zero sum s e = subst (IsReplaced sum) (returned_value e) no_shortfall
  cover_units-IsReplaced v (suc n) sum s {r} {t} e =
      from (replace ops env k order_no v (suc n) s.ledger) refl _ e
    where
      from :
          (p : Result StockFailure (Dict ℕ) × L)
          → replace ops env k order_no v (suc n) s.ledger ≡ p
          → (b : Books L) → after_replace ops env v (suc n) sum p.0 b ≡ (ok r, t)
          → IsReplaced sum r
      from (ok d, x) at b h =
          let (a, w, taken, done) =
            bind_inv (ops.reserve_lines (replacement_id ops env k v) ((v, suc n) ∷ []))
              (λ _. ops.commit_holds (replacement_id ops env k v) order_no k) s.ledger at in
          subst (IsReplaced sum) (returned_value h) (replaced no_shortfall taken done)
      from (err insufficient_stock, x) at b h = cc
      from (err reservation_unavailable, x) at b h = cc
      from (err refused, x) at b h = cc
