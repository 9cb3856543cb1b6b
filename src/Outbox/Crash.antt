-- ===== src/Outbox/Crash.antt =====
-- A worker that dies while it delivers: the transaction that claims has committed, and no row is
-- written after it.
use native.Mathlib.Nat.{mul-le-mul, mul-le-mul_left}
use tip_metro_drip_ecommerce.Base.{
  ℕ, suc, ◌+◌, ◌*◌, ◌^◌, ◌≤◌, ◌<◌, min, ◌≡◌, refl, sym, ap, subst, ◌∙◌, true, false, some, List, [],
  ◌∷◌, ◌++◌, ◌==◌, ◌||◌, arith, ==_self, select, length, if◌then◌else◌, Bool-cases, inl, inr,
}
use tip_metro_drip_ecommerce.Outbox.{
  Message, is_due, is_pending, has_pk, claim, bump, claim_batch, backoff, backoff_cap_seconds,
}
use tip_metro_drip_ecommerce.Outbox.Rows.{find, tried, find→has_pk}

module _ {P : Type 0} where
  -- What is left of drains whose workers die at their first delivery, at these times: of each, the
  -- transaction that claims.
  abbrev pub crashes : List ℕ → ℕ → List (Message P) → List (Message P)
  crashes [] batch_size rows = rows
  crashes (now ∷ nows) batch_size rows = crashes nows batch_size (claim_batch now batch_size rows).1

  -- No row is pending.
  abbrev pub IsSettled : List (Message P) → Type 0
  IsSettled [] = Unit
  IsSettled (r ∷ rs) = (is_pending r.state ≡ false) × IsSettled rs

  -- The message is due at each of these times.
  abbrev pub IsDueAt : Message P → List ℕ → Type 0
  IsDueAt m [] = Unit
  IsDueAt m (t ∷ ts) = (is_due t m ≡ true) × IsDueAt m ts

  select_due :
      (now : ℕ) (m : Message P) (before after : List (Message P))
      → IsSettled before
      → is_due now m ≡ true
      → select (is_due now) (before ++ m ∷ after) ≡ m ∷ select (is_due now) after
  select_due now m [] after s d = rw d refl
  select_due now m (r ∷ rs) after s d = rw s.0 (select_due now m rs after s.1 d)

  claimed_first :
      (now batch_size : ℕ) (m : Message P) (before after : List (Message P))
      → IsSettled before
      → is_due now m ≡ true
      → find m.pk (claim now (suc batch_size) (before ++ m ∷ after)) ≡ some m
  unfolding claim
  claimed_first now b m before after s d = rw (select_due now m before after s d, ==_self m.pk) refl

  bump-append :
      (claimed before after : List (Message P))
      → bump claimed (before ++ after) ≡ bump claimed before ++ bump claimed after
  unfolding bump
  bump-append claimed [] after = refl
  bump-append claimed (r ∷ rs) after =
      ap (λ z. (if has_pk r.pk claimed then tried r else r) ∷ z) (bump-append claimed rs after)

  bump-IsSettled :
      (claimed rows : List (Message P)) → IsSettled rows → IsSettled (bump claimed rows)
  unfolding bump
  bump-IsSettled claimed [] s = tt
  bump-IsSettled claimed (r ∷ rs) s = elim (Bool-cases (has_pk r.pk claimed)) [
    | inl c ↦ rw c (s.0, bump-IsSettled claimed rs s.1)
    | inr c ↦ rw c (s.0, bump-IsSettled claimed rs s.1)
  ]

  has_pk-bump :
      (k : ℕ) (claimed rows : List (Message P)) → has_pk k (bump claimed rows) ≡ has_pk k rows
  unfolding bump
  has_pk-bump k claimed [] = refl
  has_pk-bump k claimed (r ∷ rs) = elim (Bool-cases (has_pk r.pk claimed)) [
    | inl c ↦ rw c (ap (λ z. r.pk == k || z) (has_pk-bump k claimed rs))
    | inr c ↦ rw c (ap (λ z. r.pk == k || z) (has_pk-bump k claimed rs))
  ]

  find_after :
      (m : Message P) (before after : List (Message P))
      → has_pk m.pk before ≡ false
      → find m.pk (before ++ m ∷ after) ≡ some m
  find_after m [] after h = rw (==_self m.pk) refl
  find_after m (r ∷ rs) after h = elim (Bool-cases (r.pk == m.pk)) [
    | inl q ↦ absurd (ground arith)
    | inr q ↦ rw q (find_after m rs after (ground arith))
  ]

  -- A worker that dies leaves the message where it was, with one more attempt.
  crashed :
      (now batch_size : ℕ) (m : Message P) (before after : List (Message P))
      → IsSettled before
      → is_due now m ≡ true
      → (claim_batch now (suc batch_size) (before ++ m ∷ after)).1
        ≡ bump (claim now (suc batch_size) (before ++ m ∷ after)) before
          ++ tried m ∷ bump (claim now (suc batch_size) (before ++ m ∷ after)) after
  unfolding claim_batch bump
  crashed now b m before after s d =
      bump-append (claim now (suc b) (before ++ m ∷ after)) before (m ∷ after)
      ∙ rw
          (find→has_pk m.pk (claim now (suc b) (before ++ m ∷ after)) m
            (claimed_first now b m before after s d))
          refl

  -- Whether the message is in the table with these attempts, and is claimed at this time.
  abbrev pub IsWaiting : Message P → ℕ → ℕ → ℕ → List (Message P) → Type 0
  IsWaiting m attempts last batch_size rows =
      (find m.pk rows ≡ some (record m { attempts = attempts }))
      × (find m.pk (claim last batch_size rows) ≡ some (record m { attempts = attempts }))

  -- If no row before a pending message is pending or has its key, and it is due at each of these
  -- times: after workers that die on it at these times, whatever its attempts, its row is as before,
  -- still pending, with one more attempt for each of them, and it is claimed again at a time when it
  -- is due.
  pub crashes_lem :
      (nows : List ℕ) (last batch_size : ℕ) (m : Message P) (before after : List (Message P))
      → IsSettled before
      → has_pk m.pk before ≡ false
      → IsDueAt m nows
      → is_due last m ≡ true
      → IsWaiting m
          (m.attempts + length nows)
          last
          (suc batch_size)
          (crashes nows (suc batch_size) (before ++ m ∷ after))
  crashes_lem [] last b m before after s h ds d = (
    find_after m before after h ∙ ap (λ a. some (record m { attempts = a })) (omega arith),
    claimed_first last b m before after s d
        ∙ ap (λ a. some (record m { attempts = a })) (omega arith),
  )
  crashes_lem (now ∷ nows) last b m before after s h ds d =
      let claimed = claim now (suc b) (before ++ m ∷ after) in
      subst
        (λ a.
          IsWaiting m a last (suc b)
            (crashes nows (suc b) (claim_batch now (suc b) (before ++ m ∷ after)).1))
        (omega arith)
        (subst
          (λ rows.
            IsWaiting m (m.attempts + 1 + length nows) last (suc b) (crashes nows (suc b) rows))
          (sym (crashed now b m before after s ds.0))
          (crashes_lem nows last b (tried m) (bump claimed before) (bump claimed after)
            (bump-IsSettled claimed before s) (has_pk-bump m.pk claimed before ∙ h) ds.1 d))

capped : (n : ℕ) → min n 300 ≤ 300
capped n = omega arith

at_most : (r : ℕ) → r < 1000 → 500 + r ≤ 1499
at_most r h = omega arith

-- A retry waits at least half of its base and less than one and a half times the cap, and the base
-- grows with each attempt until it meets the cap.
pub backoff_bounds :
    (attempts random : ℕ)
    → random < 1000
    → (min (2 ^ attempts) backoff_cap_seconds * 500 ≤ backoff attempts random)
      × (backoff attempts random < backoff_cap_seconds * 1500)
unfolding backoff
backoff_bounds a r h = (
  mul-le-mul_left (min (2 ^ a) 300) (omega arith),
  omega (arith, mul-le-mul (capped (2 ^ a)) (at_most r h)),
)
