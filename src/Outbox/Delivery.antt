-- ===== src/Outbox/Delivery.antt =====
-- The row of one key under a whole drain.
use tip_metro_drip_ecommerce.Base.{
  ℕ, ◌+◌, ◌≡◌, refl, subst, ◌∙◌, String, str_append, true, false, Option, none, some, List, [], ◌∷◌,
  ◌++◌, leb, ◌==◌, if◌then◌else◌, arith, ==_self, Bool-cases, inl, inr, ◌⊎◌, ==→eq,
}
use tip_metro_drip_ecommerce.Base.Action.{Result, ok, err}
use tip_metro_drip_ecommerce.Outbox.{
  Message, Handlers, Tick, is_due, claim, claim_batch, has_pk, update, buried, delivered,
  after_failure, settle, deliver_with, deliver_one, deliver_each, drain_outbox, max_attempts,
}
use tip_metro_drip_ecommerce.Outbox.Rows.{
  find, IsKeyed, find-append, find-update, find-bump, tried, IsKeyed-claim, claim_cases,
  find→has_pk, head_is,
}

module _ {P W : Type 0} (handlers : Handlers P W) (tick : Tick) where
  -- What the run of a handler leaves of the row `r` of the message that was claimed as `m`: it is
  -- delivered if the handler returned, and failed with the handler's error if it raised.
  abbrev pub Shows : Result String (Unit {0}) → Message P → Message P → Message P → Type 0
  Shows (ok _) m r r' = r' ≡ delivered (tick.now m.pk) r
  Shows (err e) m r r' = r' ≡ after_failure tick m e r

  -- What became of a row `r` whose message was claimed as `m`, when the world is `w` at its turn: it
  -- has no handler and is dead, or it shows what its handler did in `w`.
  abbrev pub Fate : Message P → W → Message P → Message P → Type 0
  Fate m w r r' =
      ((handlers m.topic ≡ none) × (r' ≡ buried (str_append "no handler for topic " m.topic) r))
      ⊎ ((handle : P → W → Result String (Unit {0}) × W × List (Message P)) × (handlers m.topic
            ≡ some handle)
          × Shows (handle m.payload w).0 m r r')

  -- The world that the handler of a message leaves.
  abbrev left_by : Option (P → W → Result String (Unit {0}) × W × List (Message P)) → P → W → W
  left_by none p w = w
  left_by (some handle) p w = (handle p w).1

  -- The world when the first of these messages with this key is delivered.
  abbrev pub world_at : ℕ → List (Message P) → W → W
  world_at k [] w = w
  world_at k (m ∷ ms) w =
      let later = world_at k ms (left_by (handlers m.topic) m.payload w) in
      if m.pk == k then w else later

  write-own :
      (change : Message P → Message P) (k : ℕ) (rows : List (Message P)) (r : Message P)
      → ((m : Message P) → (change m).pk ≡ m.pk)
      → find k rows ≡ some r
      → find k (update k change rows) ≡ some (change r)
  write-own change k rows r same e = rw (find-update k k change rows same, ==_self k, e) refl

  write-other :
      (change : Message P → Message P) (k j : ℕ) (rows : List (Message P)) (r : Message P)
      → ((m : Message P) → (change m).pk ≡ m.pk)
      → (j == k) ≡ false
      → find k rows ≡ some r
      → find k (update j change rows) ≡ some r
  write-other change k j rows r same d e = rw (find-update k j change rows same, d, e) refl

  after_failure-pk :
      (m : Message P) (e : String) (r : Message P) → (after_failure tick m e r).pk ≡ r.pk
  unfolding after_failure
  after_failure-pk m e r = elim (Bool-cases (leb max_attempts (m.attempts + 1))) [
    | inl c ↦ rw c refl
    | inr c ↦ rw c refl
  ]

  settle-other :
      (k : ℕ) (m : Message P) (rows : List (Message P))
      (out : Result String (Unit {0}) × W × List (Message P)) (r : Message P)
      → (m.pk == k) ≡ false
      → find k rows ≡ some r
      → find k (settle tick m rows out).2 ≡ some r
  unfolding settle
  settle-other k m rows (ok _, w, new) r d e =
      write-other (delivered (tick.now m.pk)) k m.pk (rows ++ new) r (λ _. refl) d
        (find-append k rows new r e)
  settle-other k m rows (err x, w, new) r d e =
      write-other (after_failure tick m x) k m.pk (rows ++ new) r (after_failure-pk m x) d
        (find-append k rows new r e)

  settle-own :
      (m : Message P) (rows : List (Message P))
      (out : Result String (Unit {0}) × W × List (Message P)) (r : Message P)
      → find m.pk rows ≡ some r
      → (r' : Message P) × (find m.pk (settle tick m rows out).2 ≡ some r') × Shows out.0 m r r'
  unfolding settle
  settle-own m rows (ok _, w, new) r e = (
    delivered (tick.now m.pk) r,
    write-own (delivered (tick.now m.pk)) m.pk (rows ++ new) r (λ _. refl)
        (find-append m.pk rows new r e),
    refl,
  )
  settle-own m rows (err x, w, new) r e = (
    after_failure tick m x r,
    write-own (after_failure tick m x) m.pk (rows ++ new) r (after_failure-pk m x)
        (find-append m.pk rows new r e),
    refl,
  )

  deliver_with-other :
      (k : ℕ) (m : Message P) (w : W) (rows : List (Message P)) (r : Message P)
      (o : Option (P → W → Result String (Unit {0}) × W × List (Message P)))
      → (m.pk == k) ≡ false
      → find k rows ≡ some r
      → find k (deliver_with tick m w rows o).2 ≡ some r
  unfolding deliver_with
  deliver_with-other k m w rows r none d e =
      write-other (buried (str_append "no handler for topic " m.topic)) k m.pk rows r (λ _. refl) d
        e
  deliver_with-other k m w rows r (some handle) d e =
      settle-other k m rows (handle m.payload w) r d e

  deliver_with-own :
      (m : Message P) (w : W) (rows : List (Message P)) (r : Message P)
      (o : Option (P → W → Result String (Unit {0}) × W × List (Message P)))
      → handlers m.topic ≡ o
      → find m.pk rows ≡ some r
      → (r' : Message P) × (find m.pk (deliver_with tick m w rows o).2 ≡ some r') × Fate m w r r'
  unfolding deliver_with
  deliver_with-own m w rows r none n e = (
    buried (str_append "no handler for topic " m.topic) r,
    write-own (buried (str_append "no handler for topic " m.topic)) m.pk rows r (λ _. refl) e,
    inl (n, refl),
  )
  deliver_with-own m w rows r (some handle) n e =
      let own = settle-own m rows (handle m.payload w) r e in (own.0, own.1, inr (handle, n, own.2))

  settle-world :
      (m : Message P) (rows : List (Message P))
      (out : Result String (Unit {0}) × W × List (Message P))
      → (settle tick m rows out).1 ≡ out.1
  unfolding settle
  settle-world m rows (ok _, w, new) = refl
  settle-world m rows (err x, w, new) = refl

  deliver_with-world :
      (m : Message P) (w : W) (rows : List (Message P))
      (o : Option (P → W → Result String (Unit {0}) × W × List (Message P)))
      → (deliver_with tick m w rows o).1 ≡ left_by o m.payload w
  unfolding deliver_with
  deliver_with-world m w rows none = refl
  deliver_with-world m w rows (some handle) = settle-world m rows (handle m.payload w)

  deliver_one-world :
      (m : Message P) (w : W) (rows : List (Message P))
      → (deliver_one handlers tick m w rows).1 ≡ left_by (handlers m.topic) m.payload w
  unfolding deliver_one
  deliver_one-world m w rows = deliver_with-world m w rows (handlers m.topic)

  deliver_one-other :
      (k : ℕ) (m : Message P) (w : W) (rows : List (Message P)) (r : Message P)
      → (m.pk == k) ≡ false
      → find k rows ≡ some r
      → find k (deliver_one handlers tick m w rows).2 ≡ some r
  unfolding deliver_one
  deliver_one-other k m w rows r d e = deliver_with-other k m w rows r (handlers m.topic) d e

  deliver_one-own :
      (k : ℕ) (m : Message P) (w : W) (rows : List (Message P)) (r : Message P)
      → m.pk ≡ k
      → find k rows ≡ some r
      → (r' : Message P) × (find k (deliver_one handlers tick m w rows).2 ≡ some r') × Fate m w r r'
  unfolding deliver_one
  deliver_one-own k m w rows r q =
      subst
        (λ j.
          find j rows ≡ some r
          → (r' : Message P) × (find j (deliver_one handlers tick m w rows).2 ≡ some r')
            × Fate m w r r')
        q (deliver_with-own m w rows r (handlers m.topic) refl)

  deliver_each-other :
      (k : ℕ) (ms : List (Message P)) (d f : ℕ) (w : W) (rows : List (Message P)) (r : Message P)
      → has_pk k ms ≡ false
      → find k rows ≡ some r
      → find k (deliver_each handlers tick ms d f w rows).rows ≡ some r
  unfolding deliver_each
  deliver_each-other k [] d f w rows r n e = e
  deliver_each-other k (m ∷ ms) d f w rows r n e = elim (Bool-cases (m.pk == k)) [
    | inl q ↦ absurd (ground arith)
    | inr q ↦ deliver_each-other k ms _ _ _ _ r (ground arith) (deliver_one-other k m w rows r q e)
  ]

  pub deliver_each-own :
      (k : ℕ) (ms : List (Message P)) (d f : ℕ) (w : W) (rows : List (Message P)) (m r : Message P)
      → IsKeyed ms
      → find k ms ≡ some m
      → find k rows ≡ some r
      → (r' : Message P) × (find k (deliver_each handlers tick ms d f w rows).rows ≡ some r')
        × Fate m (world_at k ms w) r r'
  unfolding deliver_each
  deliver_each-own k [] d f w rows m r h c e = cc
  deliver_each-own k (x ∷ ms) d f w rows m r h c e = elim (Bool-cases (x.pk == k)) [
    | inl q ↦
        let own = deliver_one-own k x w rows r (==→eq x.pk k q) e in
        (
          own.0,
          deliver_each-other k ms _ _ _ _ own.0
              (subst (λ j. has_pk j ms ≡ false) (==→eq x.pk k q) h.0) own.1,
          rw q (subst (λ y. Fate y w r own.0) (head_is k x ms m q c) own.2),
        )
    | inr q ↦
        let own =
          deliver_each-own k ms (if (deliver_one handlers tick x w rows).0 then d + 1 else d)
            (if (deliver_one handlers tick x w rows).0 then f else f + 1)
            (deliver_one handlers tick x w rows).1 (deliver_one handlers tick x w rows).2 m r h.1
            (ground arith) (deliver_one-other k x w rows r q e) in
        (
          own.0,
          own.1,
          rw q (subst (λ v. Fate m (world_at k ms v) r own.0) (deliver_one-world x w rows) own.2),
        )
  ]

  -- If no two rows have one key: after a drain, the row of a message is as before, if the message
  -- was not claimed; or it was claimed, it was pending and due, and its row, with one more attempt,
  -- shows what its handler did in the world that the handlers of the messages before it left: it is
  -- delivered exactly if the handler returned, failed with its error if it raised, and dead if there
  -- is no handler.
  pub drain_outbox-Fate :
      (k batch_size : ℕ) (w : W) (rows : List (Message P)) (m : Message P)
      → IsKeyed rows
      → find k rows ≡ some m
      → ((has_pk k (claim tick.claimed_at batch_size rows) ≡ false)
          × (find k (drain_outbox handlers tick batch_size w rows).rows ≡ some m))
        ⊎ ((has_pk k (claim tick.claimed_at batch_size rows) ≡ true)
            × (is_due tick.claimed_at m ≡ true)
            × ((r' : Message P) × (find k (drain_outbox handlers tick batch_size w rows).rows
                  ≡ some r')
                × Fate m (world_at k (claim tick.claimed_at batch_size rows) w) (tried m) r'))
  unfolding drain_outbox claim_batch
  drain_outbox-Fate k n w rows m h e = elim (claim_cases k tick.claimed_at n rows m h e) [
    | inl c ↦ inl (
      c,
      deliver_each-other k (claim tick.claimed_at n rows) 0 0 w _ m c
          (find-bump k (claim tick.claimed_at n rows) rows ∙ rw c e),
    )
    | inr c ↦ inr (
      find→has_pk k (claim tick.claimed_at n rows) m c.0,
      c.1,
      deliver_each-own k (claim tick.claimed_at n rows) 0 0 w _ m (tried m)
          (IsKeyed-claim tick.claimed_at n rows h) c.0
          (find-bump k (claim tick.claimed_at n rows) rows
            ∙ rw (find→has_pk k (claim tick.claimed_at n rows) m c.0, e) refl),
    )
  ]
