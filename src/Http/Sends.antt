-- ===== src/Http/Sends.antt =====
-- apps/core/http.py: the requests that one call sends.
use tip_metro_drip_ecommerce.Base.{
  ℕ, zero, suc, ◌+◌, ◌≤◌, ◌≡◌, refl, sym, ap, ◌∙◌, subst, String, str_eq, starts_with, Bool, true,
  false, ◌&&◌, Option, none, some, [], ◌∷◌, ◌++◌, ltb, arith, Bool-cases, inl, inr, ◌⊎◌,
}
use tip_metro_drip_ecommerce.Base.Action.{Result}
use tip_metro_drip_ecommerce.Http.{
  Json, Outcome, answered, read_timeout, connect_timeout, connection_error, request_exception,
  CallError, unavailable, uncertain, CallPolicy, Headers, Net, World, Call, record_success,
  contains, failed, respond, attempt_each, is_blank, call,
}
use tip_metro_drip_ecommerce.Http.Attempts.{
  copies, Sends, append_nil, append_assoc, record_failure-sent, record_success-sent, check_cases,
  headers_of, dispatch, retry, attempt_refused, attempt_sent,
}

module _ (w : World) (policy : CallPolicy) (headers : Headers) where
  -- The rest of the loop from a state: how many requests it sends, at most `n`.
  abbrev Within : ℕ → Net → Net → Type 0
  Within n u t = (k : ℕ) × Sends k headers u t × (k ≤ n)

  none_more : (n : ℕ) (u t : Net) → t.sent ≡ u.sent → Within n u t
  none_more n u t e = (0, e ∙ append_nil u.sent, omega arith)

  from_same : (n : ℕ) (u v t : Net) → v.sent ≡ u.sent → Within n v t → Within n u t
  from_same n u v t e (k, h, b) = (k, h ∙ ap (λ x. x ++ copies k headers) e, b)

  respond-Within :
      (n attempt : ℕ) (again : CallError → Call) (o : Outcome) (u : Net)
      → ((e : CallError) (v : Net) → Within n v (again e v).1)
      → Within n u (respond w policy attempt again o u).1
  unfolding respond
  respond-Within n attempt again o u h = go o
    where
      u' : Net
      u' = failed w policy attempt u

      same : u'.sent ≡ u.sent
      same = record_failure-sent policy.breaker_key (w.failed_at attempt) policy.breaker_threshold u

      settled : Net
      settled = record_success policy.breaker_key u

      go : (o : Outcome) → Within n u (respond w policy attempt again o u).1
      go read_timeout = from_same n u u' (again uncertain u').1 same (h uncertain u')
      go connect_timeout = from_same n u u' (again unavailable u').1 same (h unavailable u')
      go connection_error = from_same n u u' (again unavailable u').1 same (h unavailable u')
      go request_exception = from_same n u u' (again uncertain u').1 same (h uncertain u')
      go (answered r) = elim (Bool-cases (ltb r.status_code 400)) [
        | inl c ↦ rw c (none_more n u settled (record_success-sent policy.breaker_key u))
        | inr c ↦ elim (Bool-cases (ltb r.status_code 500)) [
          | inl d ↦ rw (c, d) (none_more n u settled (record_success-sent policy.breaker_key u))
          | inr d ↦ elim (Bool-cases (contains r.status_code policy.retry_on)) [
            | inl f ↦ rw (c, d, f) (from_same n u u' (again uncertain u').1 same (h uncertain u'))
            | inr f ↦ rw (c, d, f) (none_more n u u' same)
          ]
        ]
      ]

  one_more :
      (n : ℕ) (s t u : Net)
      → t.sent ≡ s.sent
      → Within n (dispatch w policy headers t) u
      → Within (suc n) s u
  one_more n s t u e (k, h, b) = (
    suc k,
    h
        ∙ (append_assoc t.sent (headers ∷ []) (copies k headers)
            ∙ ap (λ x. x ++ headers ∷ copies k headers) e),
    omega arith,
  )

  loop-Within :
      (n attempt : ℕ) (last : Option CallError) (s : Net)
      → Within n s (attempt_each w policy headers n attempt last s).1
  unfolding attempt_each
  loop-Within zero attempt none s = none_more 0 s s refl
  loop-Within zero attempt (some e) s = none_more 0 s s refl
  loop-Within (suc n) attempt last s =
      elim (check_cases policy.breaker_key (w.checked_at attempt) policy.breaker_cooldown s) [
        | inl e ↦
            subst (λ (p : Result CallError Json × Net). Within (suc n) s p.1)
              (sym (attempt_refused w policy headers n attempt last s e))
              (none_more (suc n) s s refl)
        | inr (t, e, same) ↦
            subst (λ (p : Result CallError Json × Net). Within (suc n) s p.1)
              (sym (attempt_sent w policy headers n attempt last s t e))
              (one_more n s t
                (respond w policy attempt (retry w policy headers n attempt) (w.outcome attempt)
                  (dispatch w policy headers t)).1
                same
                (respond-Within n attempt (retry w policy headers n attempt) (w.outcome attempt)
                  (dispatch w policy headers t) (λ x v. loop-Within n (attempt + 1) (some x) v)))
      ]

single : (k n : ℕ) (b : Bool) → (ltb 1 n && b) ≡ false → k ≤ n → (b ≡ false) ⊎ (k ≤ 1)
single k n true e h = inr (ground arith)
single k n false e h = inl refl

-- However the service and the network answer, a call sends at most `attempts` requests, all with the
-- same headers and so with the same idempotency key; without such a key it sends at most one; with
-- no token, or an address that is not configured, it sends none.
pub call-Sends :
    (w : World) (policy : CallPolicy) (url token : String)
    (correlation_id idempotency_key : Option String) (s : Net)
    → (k : ℕ) × Sends k
        (headers_of token correlation_id idempotency_key)
        s
        (call w policy url token correlation_id idempotency_key s).1
      × (k ≤ policy.attempts)
      × ((is_blank idempotency_key ≡ false) ⊎ (k ≤ 1))
      × (((str_eq token "" ≡ false) × (starts_with url "http" ≡ true)) ⊎ (k ≡ 0))
unfolding call
call-Sends w policy url token c i s = elim (Bool-cases (ltb 1 policy.attempts && is_blank i)) [
  | inl a ↦ rw a (0, append_nil s.sent, omega arith, inr (omega arith), inr refl)
  | inr a ↦ elim (Bool-cases (starts_with url "http")) [
    | inr b ↦ rw (a, b) (0, append_nil s.sent, omega arith, inr (omega arith), inr refl)
    | inl b ↦ elim (Bool-cases (str_eq token "")) [
      | inl d ↦ rw (a, b, d) (0, append_nil s.sent, omega arith, inr (omega arith), inr refl)
      | inr d ↦
          let l = loop-Within w policy (headers_of token c i) policy.attempts 1 none s in
          rw (a, b, d)
            (l.0, l.1, l.2, single l.0 policy.attempts (is_blank i) a l.2, inl (refl, refl))
    ]
  ]
]
