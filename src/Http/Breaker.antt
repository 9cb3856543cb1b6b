-- ===== src/Http/Breaker.antt =====
-- apps/core/http.py: `_CircuitBreaker` at one key, over runs of failures, checks and successes.
use text.Mathlib.TextPositions.{eq_refl}
use tip_metro_drip_ecommerce.Base.{
  ℕ, ◌+◌, ◌-◌, ◌<◌, ◌≡◌, refl, ap, ◌∙◌, String, str_eq, true, false, none, some, List, [], ◌∷◌,
  ◌++◌, length, length-append, ltb, leb, if◌then◌else◌, arith, Bool-cases, inl, inr,
}
use tip_metro_drip_ecommerce.Base.Action.{ok, err}
use tip_metro_drip_ecommerce.Http.{
  Circuit, Net, unavailable, set_circuit, check, record_failure, opening,
}

module _ (key : String) (named : str_eq key "" ≡ false) where
  -- Failures at these times, with nothing in between.
  abbrev pub fail_each : ℕ → List ℕ → Net → Net
  fail_each threshold [] s = s
  fail_each threshold (t ∷ ts) s = fail_each threshold ts (record_failure key t threshold s)

  circuit_at : (s : Net) (c : Circuit) → (set_circuit key c s).circuits key ≡ c
  circuit_at s c = rw (eq_refl key) refl

  record_failure_at :
      (t threshold : ℕ) (s : Net)
      → (record_failure key t threshold s).circuits key ≡ record {
        failures = (s.circuits key).failures + 1;
        opened_at = opening t threshold ((s.circuits key).failures + 1) (s.circuits key).opened_at;
      }
  record_failure_at t threshold s = rw (named, eq_refl key) refl

  fail_each-failures :
      (threshold : ℕ) (ts : List ℕ) (s : Net)
      → ((fail_each threshold ts s).circuits key).failures ≡ (s.circuits key).failures + length ts
  fail_each-failures threshold [] s = omega arith
  fail_each-failures threshold (t ∷ ts) s =
      fail_each-failures threshold ts (record_failure key t threshold s)
      ∙ (ap (λ c. c.failures + length ts) (record_failure_at t threshold s) ∙ omega arith)

  fail_each-closed :
      (threshold : ℕ) (ts : List ℕ) (s : Net)
      → (s.circuits key).opened_at ≡ none
      → (s.circuits key).failures + length ts < threshold
      → ((fail_each threshold ts s).circuits key).opened_at ≡ none
  fail_each-closed threshold [] s c h = c
  fail_each-closed threshold (t ∷ ts) s c h =
      fail_each-closed threshold ts (record_failure key t threshold s)
        (ap (λ x. x.opened_at) (record_failure_at t threshold s) ∙ rw (c, below) refl)
        (omega (arith, ap (λ x. x.failures) (record_failure_at t threshold s)))
    where
      below : leb threshold ((s.circuits key).failures + 1) ≡ false
      below = ground arith

  fail_each-open :
      (threshold : ℕ) (ts : List ℕ) (s : Net) (t : ℕ)
      → (s.circuits key).opened_at ≡ some t
      → ((fail_each threshold ts s).circuits key).opened_at ≡ some t
  fail_each-open threshold [] s t c = c
  fail_each-open threshold (x ∷ ts) s t c =
      fail_each-open threshold ts (record_failure key x threshold s) t
        (ap (λ y. y.opened_at) (record_failure_at x threshold s) ∙ rw c refl)

  fail_each-append :
      (threshold : ℕ) (xs ys : List ℕ) (s : Net)
      → fail_each threshold (xs ++ ys) s ≡ fail_each threshold ys (fail_each threshold xs s)
  fail_each-append threshold [] ys s = refl
  fail_each-append threshold (x ∷ xs) ys s =
      fail_each-append threshold xs ys (record_failure key x threshold s)

  fail_each-opens :
      (before after : List ℕ) (t : ℕ) (s : Net)
      → (s.circuits key).opened_at ≡ none
      → (s.circuits key).failures ≡ 0
      → ((fail_each (length before + 1) (before ++ t ∷ after) s).circuits key).opened_at ≡ some t
  fail_each-opens before after t s c z =
      rw (fail_each-append (length before + 1) before (t ∷ after) s) (
        fail_each-open (length before + 1) after (record_failure key t (length before + 1) u) t (
          ap (λ y. y.opened_at) (record_failure_at t (length before + 1) u)
          ∙ rw (closed, crossed) refl))
    where
      u : Net
      u = fail_each (length before + 1) before s

      closed : (u.circuits key).opened_at ≡ none
      closed = fail_each-closed (length before + 1) before s c (omega arith)

      crossed : leb (length before + 1) ((u.circuits key).failures + 1) ≡ true
      crossed = rw (fail_each-failures (length before + 1) before s, z) (ground arith)

  check_closed :
      (now cooldown : ℕ) (s : Net)
      → (s.circuits key).opened_at ≡ none
      → check key now cooldown s ≡ (ok tt, s)
  check_closed now cooldown s c = rw (named, c) refl

  check_waits :
      (now cooldown t : ℕ) (s : Net)
      → (s.circuits key).opened_at ≡ some t
      → ltb (now - t) cooldown ≡ true
      → check key now cooldown s ≡ (err unavailable, s)
  check_waits now cooldown t s c e = rw (named, c, e) refl

  abbrev pub half_open : Net → Net
  half_open s =
      set_circuit key (record { failures = (s.circuits key).failures; opened_at = none }) s

  check_probes :
      (now cooldown t : ℕ) (s : Net)
      → (s.circuits key).opened_at ≡ some t
      → ltb (now - t) cooldown ≡ false
      → check key now cooldown s ≡ (ok tt, half_open s)
  check_probes now cooldown t s c e = rw (named, c, e) refl

  half_open_fails :
      (threshold again : ℕ) (s : Net)
      → leb threshold ((s.circuits key).failures + 1) ≡ true
      → ((record_failure key again threshold (half_open s)).circuits key).opened_at ≡ some again
  half_open_fails threshold again s e =
      ap (λ y. y.opened_at) (record_failure_at again threshold (half_open s))
      ∙ (ap (λ y. opening again threshold (y.failures + 1) y.opened_at)
            (circuit_at s (record { failures = (s.circuits key).failures; opened_at = none }))
          ∙ rw e refl)

  check_open :
      (now cooldown t : ℕ) (s : Net)
      → (s.circuits key).opened_at ≡ some t
      → check key now cooldown s
        ≡ (if ltb (now - t) cooldown then (err unavailable, s) else (ok tt, half_open s))
  check_open now cooldown t s c = elim (Bool-cases (ltb (now - t) cooldown)) [
    | inl e ↦ check_waits now cooldown t s c e ∙ rw e refl
    | inr e ↦ check_probes now cooldown t s c e ∙ rw e refl
  ]

  reached :
      (before after : List ℕ) (t : ℕ) (s : Net)
      → leb
          (length before + 1)
          (((fail_each (length before + 1) (before ++ t ∷ after) s).circuits key).failures + 1)
        ≡ true
  reached before after t s =
      rw
        (
          fail_each-failures (length before + 1) (before ++ t ∷ after) s,
          length-append before (t ∷ after),
        )
        (ground arith)

  -- The life of a closed circuit with no failure on it, under a key that is not blank. It opens with
  -- the failure that makes the threshold, and later failures do not move that time. Before that
  -- failure every check passes. While it is open, a check within the cooldown refuses the call and
  -- changes nothing, and a check after it passes and leaves the circuit half open: one more failure
  -- opens it again at once.
  pub fail_each_lem :
      (before after : List ℕ) (t : ℕ) (s : Net) (now cooldown again : ℕ)
      → (s.circuits key).opened_at ≡ none
      → (s.circuits key).failures ≡ 0
      → (check key now cooldown (fail_each (length before + 1) before s)
          ≡ (ok tt, fail_each (length before + 1) before s))
        × (check key now cooldown (fail_each (length before + 1) (before ++ t ∷ after) s) ≡ (
            if ltb (now - t) cooldown
            then (err unavailable, fail_each (length before + 1) (before ++ t ∷ after) s)
            else (ok tt, half_open (fail_each (length before + 1) (before ++ t ∷ after) s))))
        × (((record_failure key again
                (length before + 1)
                (half_open (fail_each (length before + 1) (before ++ t ∷ after) s))).circuits
              key).opened_at
            ≡ some again)
  fail_each_lem before after t s now cooldown again c z = (
    check_closed now cooldown _ (fail_each-closed (length before + 1) before s c (omega arith)),
    check_open now cooldown t _ (fail_each-opens before after t s c z),
    half_open_fails (length before + 1) again
        (fail_each (length before + 1) (before ++ t ∷ after) s) (reached before after t s),
  )

  -- Under a key that is not blank: once the cooldown of an open circuit is over, a check lets its
  -- caller through, and every check after it lets its own caller through too, until a failure is
  -- recorded.
  pub check-passes :
      (now cooldown t later cooldown' : ℕ) (s : Net)
      → (s.circuits key).opened_at ≡ some t
      → ltb (now - t) cooldown ≡ false
      → ((check key now cooldown s).0 ≡ ok tt)
        × (check key later cooldown' (check key now cooldown s).1
            ≡ (ok tt, (check key now cooldown s).1))
  check-passes now cooldown t later cooldown' s c e = rw (check_probes now cooldown t s c e) (
    refl,
    check_closed later cooldown' (half_open s) (
        ap (λ y. y.opened_at)
          (circuit_at s (record { failures = (s.circuits key).failures; opened_at = none }))),
  )
