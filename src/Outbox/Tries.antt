-- ===== src/Outbox/Tries.antt =====
-- The tries of a message under a whole drain.
use tip_metro_drip_ecommerce.Base.{
  ℕ, zero, suc, ◌+◌, ◌≤◌, ◌<◌, ◌≡◌, ◌≢◌, refl, sym, ap, subst, ◌∙◌, String, Bool, true, false, some,
  List, [], ◌∷◌, select, length, leb, if◌then◌else◌, arith, Bool-cases, inl, inr, ◌⊎◌,
}
use tip_metro_drip_ecommerce.Base.Action.{Result, ok, err}
use tip_metro_drip_ecommerce.Outbox.{
  pending, sent, dead, Message, Handlers, Tick, is_due, first, claim, claim_batch, has_pk, bump,
  after_failure, deliver_one, deliver_each, drain_outbox, max_attempts,
}
use tip_metro_drip_ecommerce.Outbox.Rows.{find, IsKeyed, tried}
use tip_metro_drip_ecommerce.Outbox.Delivery.{Shows, Fate, world_at, drain_outbox-Fate}

dead≢pending : dead ≢ pending
dead≢pending e = cc

sent≢pending : sent ≢ pending
sent≢pending e = cc

-- A pending row has tries left.
abbrev pub IsYoung : {P : Type 0} → Message P → Type 0
IsYoung m = m.state ≡ pending → m.attempts < max_attempts

module _ {P W : Type 0} (handlers : Handlers P W) (tick : Tick) where
  after_failure-IsYoung : (m : Message P) (x : String) → IsYoung (after_failure tick m x (tried m))
  unfolding after_failure
  after_failure-IsYoung m x = elim (Bool-cases (leb max_attempts (m.attempts + 1))) [
    | inl c ↦ rw c (λ p. absurd (dead≢pending p))
    | inr c ↦ rw c (λ p. ground arith)
  ]

  after_failure-attempts :
      (m : Message P) (x : String) → (after_failure tick m x (tried m)).attempts ≡ m.attempts + 1
  unfolding after_failure
  after_failure-attempts m x = elim (Bool-cases (leb max_attempts (m.attempts + 1))) [
    | inl c ↦ rw c refl
    | inr c ↦ rw c refl
  ]

  Shows-attempts :
      (o : Result String (Unit {0})) (m r' : Message P)
      → Shows handlers tick o m (tried m) r'
      → r'.attempts ≡ m.attempts + 1
  Shows-attempts (ok _) m r' e = ap (λ z. z.attempts) e
  Shows-attempts (err x) m r' e = ap (λ z. z.attempts) e ∙ after_failure-attempts m x

  Fate-attempts :
      (m : Message P) (w : W) (r' : Message P)
      → Fate handlers tick m w (tried m) r'
      → r'.attempts ≡ m.attempts + 1
  Fate-attempts m w r' (inl (n, e)) = ap (λ z. z.attempts) e
  Fate-attempts m w r' (inr (handle, n, s)) = Shows-attempts (handle m.payload w).0 m r' s

  Shows-IsYoung :
      (o : Result String (Unit {0})) (m r' : Message P)
      → Shows handlers tick o m (tried m) r'
      → IsYoung r'
  Shows-IsYoung (ok _) m r' e p = absurd (sent≢pending (sym (ap (λ z. z.state) e) ∙ p))
  Shows-IsYoung (err x) m r' e p = subst IsYoung (sym e) (after_failure-IsYoung m x) p

  Fate-IsYoung :
      (m : Message P) (w : W) (r' : Message P) → Fate handlers tick m w (tried m) r' → IsYoung r'
  Fate-IsYoung m w r' (inl (n, e)) p = absurd (dead≢pending (sym (ap (λ z. z.state) e) ∙ p))
  Fate-IsYoung m w r' (inr (handle, n, s)) p = Shows-IsYoung (handle m.payload w).0 m r' s p

  -- If no two rows have one key, a drain that runs to its end takes no message past its last try:
  -- whatever the handlers do, a row that is still pending has tries left, if that was so before; a
  -- row that was not claimed is as before, and one that was claimed counts exactly one more.
  pub drain_outbox-IsYoung :
      (k batch_size : ℕ) (w : W) (rows : List (Message P)) (m : Message P)
      → IsKeyed rows
      → find k rows ≡ some m
      → IsYoung m
      → (r' : Message P) × (find k (drain_outbox handlers tick batch_size w rows).rows ≡ some r')
        × IsYoung r'
        × (((has_pk k (claim tick.claimed_at batch_size rows) ≡ false) × (r' ≡ m))
            ⊎ ((has_pk k (claim tick.claimed_at batch_size rows) ≡ true)
                × (r'.attempts ≡ m.attempts + 1)))
  drain_outbox-IsYoung k n w rows m h e y =
      elim (drain_outbox-Fate handlers tick k n w rows m h e) [
        | inl c ↦ (m, c.1, y, inl (c.0, refl))
        | inr (b, c, s) ↦
            let v = world_at handlers tick k (claim tick.claimed_at n rows) w in
            (s.0, s.1, Fate-IsYoung m v s.0 s.2, inr (b, Fate-attempts m v s.0 s.2))
      ]

  counted :
      (done : Bool) (d f n : ℕ)
      → (if done then d + 1 else d) + (if done then f else f + 1) + n ≡ d + f + suc n
  counted true d f n = omega arith
  counted false d f n = omega arith

  deliver_each-counts :
      (ms : List (Message P)) (d f : ℕ) (w : W) (rows : List (Message P))
      → (deliver_each handlers tick ms d f w rows).delivered_count
          + (deliver_each handlers tick ms d f w rows).failed_count
        ≡ d + f + length ms
  unfolding deliver_each
  deliver_each-counts [] d f w rows = omega arith
  deliver_each-counts (m ∷ ms) d f w rows =
      deliver_each-counts ms _ _ _ _
      ∙ counted (deliver_one handlers tick m w rows).0 d f (length ms)

  length-first : (n : ℕ) (rows : List (Message P)) → length (first n rows) ≤ n
  length-first zero rows = omega arith
  length-first (suc n) [] = omega arith
  length-first (suc n) (r ∷ rs) = omega (arith, length-first n rs)

  -- A drain reports every message that it claimed exactly once, as delivered or as failed, and claims
  -- no more than its batch.
  pub drain_outbox-counts :
      (batch_size : ℕ) (w : W) (rows : List (Message P))
      → (((drain_outbox handlers tick batch_size w rows).delivered_count
            + (drain_outbox handlers tick batch_size w rows).failed_count)
          ≡ length (claim tick.claimed_at batch_size rows))
        × (length (claim tick.claimed_at batch_size rows) ≤ batch_size)
  unfolding drain_outbox claim_batch claim
  drain_outbox-counts n w rows = (
    deliver_each-counts (claim tick.claimed_at n rows) 0 0 w
          (bump (claim tick.claimed_at n rows) rows)
        ∙ omega arith,
    length-first n (select (is_due tick.claimed_at) rows),
  )
