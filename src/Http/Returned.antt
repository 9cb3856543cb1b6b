-- ===== src/Http/Returned.antt =====
-- apps/core/http.py: a call that returns has been answered at the last attempt that it made.
use tip_metro_drip_ecommerce.Base.{
  ℕ, zero, suc, ◌+◌, ◌≡◌, refl, sym, ap, ◌∙◌, subst, String, str_eq, starts_with, Bool, true, false,
  not, ◌&&◌, if◌then◌else◌, Option, none, some, [], ◌∷◌, ◌++◌, ltb, arith, inl, inr,
}
use tip_metro_drip_ecommerce.Base.Action.{Result, ok, err, pure, raise, raise_if, modify, ◌>>◌}
use tip_metro_drip_ecommerce.Base.Invert.{raise_if_inv, returned_state}
use tip_metro_drip_ecommerce.Http.{
  Json, Response, Outcome, answered, read_timeout, connect_timeout, connection_error,
  request_exception, CallError, value_error, unavailable, uncertain, CallPolicy, Headers, Net,
  World, Call, record_success, contains, failed, rejected, or_empty, error_envelope, respond,
  attempt_each, is_blank, call,
}
use tip_metro_drip_ecommerce.Http.Attempts.{
  copies, Sends, append_nil, append_assoc, record_failure-sent, record_success-sent, check_cases,
  headers_of, dispatch, retry, attempt_refused, attempt_sent,
}

-- The attempt of this number was answered below 400.
abbrev pub IsAnswered : World → ℕ → Type 0
IsAnswered w attempt =
    (r : Response) × (w.outcome attempt ≡ answered r) × (ltb r.status_code 400 ≡ true)

module _ (w : World) (policy : CallPolicy) (headers : Headers) where
  -- `k` more requests went out after the one of this attempt, and the last was answered.
  abbrev Later : ℕ → Net → Net → Type 0
  Later attempt u t = (k : ℕ) × Sends k headers u t × IsAnswered w (attempt + k)

  abbrev Returned : ℕ → Net → Net → Type 0
  Returned attempt s t = (k : ℕ) × Sends (suc k) headers s t × IsAnswered w (attempt + k)

  Later-attempt :
      (attempt : ℕ) (u v t : Net) → v.sent ≡ u.sent → Returned (attempt + 1) v t → Later attempt u t
  Later-attempt attempt u v t same (k, sends, (r, at, below)) = (
    suc k,
    sends ∙ ap (λ x. x ++ copies (suc k) headers) same,
    (r, ap w.outcome (omega arith) ∙ at, below),
  )

  respond-Later :
      (attempt : ℕ) (again : CallError → Call) (u t : Net) {j : Json}
      → ((e : CallError) (v : Net) → again e v ≡ (ok j, t) → Returned (attempt + 1) v t)
      → (o : Outcome) → w.outcome attempt ≡ o
      → respond w policy attempt again o u ≡ (ok j, t)
      → Later attempt u t
  unfolding respond
  respond-Later attempt again u t {j} h = go
    where
      u' : Net
      u' = failed w policy attempt u

      same : u'.sent ≡ u.sent
      same = record_failure-sent policy.breaker_key (w.failed_at attempt) policy.breaker_threshold u

      settled : Net
      settled = record_success policy.breaker_key u

      go :
          (o : Outcome)
          → w.outcome attempt ≡ o
          → respond w policy attempt again o u ≡ (ok j, t)
          → Later attempt u t
      go read_timeout at e = Later-attempt attempt u u' t same (h uncertain u' e)
      go connect_timeout at e = Later-attempt attempt u u' t same (h unavailable u' e)
      go connection_error at e = Later-attempt attempt u u' t same (h unavailable u' e)
      go request_exception at e = Later-attempt attempt u u' t same (h uncertain u' e)
      go (answered r) at e =
          by_status (ltb r.status_code 400) (ltb r.status_code 500)
            (contains r.status_code policy.retry_on) refl e
        where
          by_status :
              (low mid retried : Bool)
              → ltb r.status_code 400 ≡ low
              → ◌≡◌ {A = Result CallError Json × Net}
                  ((if low
                      then modify (record_success policy.breaker_key) >> pure (or_empty r.json)
                      else if mid
                      then (modify (record_success policy.breaker_key)
                          >> (let (code, message, payload) = error_envelope w r in
                              raise (rejected r.status_code code message payload)))
                      else (modify (failed w policy attempt)
                          >> (if retried then again uncertain else raise uncertain)))
                    u)
                  (ok j, t)
              → Later attempt u t
          by_status true mid retried below q = (
            0,
            subst (λ (v : Net). Sends 0 headers u v) (returned_state q)
                (record_success-sent policy.breaker_key u ∙ append_nil u.sent),
            (r, ap w.outcome (omega arith) ∙ at, below),
          )
          by_status false true retried below q = cc
          by_status false false true below q = Later-attempt attempt u u' t same (h uncertain u' q)
          by_status false false false below q = cc

  nothing :
      {x : CallError} {s t : Net} {j : Json} {R : Type 0}
      → ◌≡◌ {A = Result CallError Json × Net} (err x, s) (ok j, t)
      → R
  nothing e = absurd cc

  sent_more :
      (s u t : Net) (k : ℕ)
      → u.sent ≡ s.sent
      → Sends k headers (dispatch w policy headers u) t
      → Sends (suc k) headers s t
  sent_more s u t k same e =
      e
      ∙ (append_assoc u.sent (headers ∷ []) (copies k headers)
          ∙ ap (λ x. x ++ headers ∷ copies k headers) same)

  loop-Returned :
      (n attempt : ℕ) (last : Option CallError) (s t : Net) {j : Json}
      → attempt_each w policy headers n attempt last s ≡ (ok j, t)
      → Returned attempt s t
  unfolding attempt_each
  loop-Returned zero attempt none s t e = cc
  loop-Returned zero attempt (some x) s t e = cc
  loop-Returned (suc n) attempt last s t e =
      elim (check_cases policy.breaker_key (w.checked_at attempt) policy.breaker_cooldown s) [
        | inl q ↦ nothing (sym (attempt_refused w policy headers n attempt last s q) ∙ e)
        | inr (u, q, same) ↦
            let (k, sends, answer) =
              respond-Later attempt (retry w policy headers n attempt) (dispatch w policy headers u)
                t (λ x v. loop-Returned n (attempt + 1) (some x) v t) (w.outcome attempt) refl
                (sym (attempt_sent w policy headers n attempt last s u q) ∙ e) in
            (k, sent_more s u t k same sends, answer)
      ]

-- What a call that returned did.
pub call-Returned :
    (w : World) (policy : CallPolicy) (url token : String)
    (correlation_id idempotency_key : Option String) (s t : Net) {j : Json}
    → call w policy url token correlation_id idempotency_key s ≡ (ok j, t)
    → (k : ℕ) × Sends (suc k) (headers_of token correlation_id idempotency_key) s t
      × IsAnswered w (suc k)
unfolding call
call-Returned w policy url token c i s t e =
    let (_, e₁) =
      raise_if_inv (ltb 1 policy.attempts && is_blank i) value_error
        (raise_if (not (starts_with url "http")) unavailable
          >> (raise_if (str_eq token "") unavailable
              >> attempt_each w policy (headers_of token c i) policy.attempts 1 none))
        s e in
    let (_, e₂) =
      raise_if_inv (not (starts_with url "http")) unavailable
        (raise_if (str_eq token "") unavailable
          >> attempt_each w policy (headers_of token c i) policy.attempts 1 none)
        s e₁ in
    let (_, e₃) =
      raise_if_inv (str_eq token "") unavailable
        (attempt_each w policy (headers_of token c i) policy.attempts 1 none) s e₂ in
    let (k, sends, answer) =
      loop-Returned w policy (headers_of token c i) policy.attempts 1 none s t e₃ in
    (k, sends, subst (IsAnswered w) (omega arith) answer)
