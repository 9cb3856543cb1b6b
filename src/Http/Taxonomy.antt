-- ===== src/Http/Taxonomy.antt =====
-- apps/core/http.py: what the result of a call of one attempt says about its request.
use tip_metro_drip_ecommerce.Base.{
  ℕ, ◌≡◌, refl, sym, ap, ◌∙◌, subst, String, str_eq, starts_with, true, false, Option, none, [],
  ◌∷◌, ◌++◌, ltb, Bool-cases, inl, inr, ◌⊎◌,
}
use tip_metro_drip_ecommerce.Base.Action.{Result, ok, err, raise}
use tip_metro_drip_ecommerce.Http.{
  Json, Response, Outcome, answered, read_timeout, connect_timeout, connection_error,
  request_exception, CallError, unavailable, uncertain, value_error, type_error, rejected,
  CallPolicy, Headers, Net, World, record_success, contains, or_empty, failed, respond,
  attempt_each, call,
}
use tip_metro_drip_ecommerce.Http.Attempts.{
  may_apply, Sends, append_nil, record_failure-sent, record_success-sent, check_cases, headers_of,
  dispatch, attempt_refused, attempt_sent,
}

-- What a call of one attempt tells its caller. If it raises `unavailable`, nothing was sent, or one
-- request was that cannot have been applied, or the transport raised `ConnectionError`, which may come
-- after the request was sent; if it raises `uncertain`, one request was sent that may have been
-- applied; if it raises `rejected`, one request was sent, and the
-- service answered it with that status, in the four hundreds; if it returns, one request was sent and
-- the service accepted it.
abbrev pub Told : Outcome → Net → Headers → Result CallError Json × Net → Type 0
Told o s h (ok j, t) =
    Sends 1 h s t
    × ((r : Response) × (o ≡ answered r) × (ltb r.status_code 400 ≡ true) × (j ≡ or_empty r.json))
Told o s h (err unavailable, t) =
    Sends 0 h s t ⊎ (Sends 1 h s t × ((may_apply o ≡ false) ⊎ (o ≡ connection_error)))
Told o s h (err uncertain, t) = Sends 1 h s t × (may_apply o ≡ true)
Told o s h (err (rejected code name message payload), t) =
    Sends 1 h s t
    × ((r : Response) × (o ≡ answered r)
        × (r.status_code ≡ code)
        × (ltb code 500 ≡ true)
        × (ltb code 400 ≡ false))
Told o s h (err value_error, t) = ⊥
Told o s h (err type_error, t) = ⊥

module _ (w : World) (policy : CallPolicy) (headers : Headers) where
  keeps_sent :
      (attempt : ℕ) (s u : Net)
      → Sends 1 headers s u
      → Sends 1 headers s (failed w policy attempt u)
  keeps_sent attempt s u h =
      record_failure-sent policy.breaker_key (w.failed_at attempt) policy.breaker_threshold u ∙ h

  settles :
      (s u : Net) → Sends 1 headers s u → Sends 1 headers s (record_success policy.breaker_key u)
  settles s u h = record_success-sent policy.breaker_key u ∙ h

  respond-Told :
      (attempt : ℕ) (o : Outcome) (s u : Net)
      → Sends 1 headers s u
      → Told o s headers (respond w policy attempt raise o u)
  unfolding respond
  respond-Told attempt read_timeout s u h = (keeps_sent attempt s u h, refl)
  respond-Told attempt connect_timeout s u h = inr (keeps_sent attempt s u h, inl refl)
  respond-Told attempt connection_error s u h = inr (keeps_sent attempt s u h, inr refl)
  respond-Told attempt request_exception s u h = (keeps_sent attempt s u h, refl)
  respond-Told attempt (answered r) s u h = elim (Bool-cases (ltb r.status_code 400)) [
    | inl c ↦ rw c (settles s u h, (r, refl, c, refl))
    | inr c ↦ elim (Bool-cases (ltb r.status_code 500)) [
      | inl d ↦ rw (c, d) (settles s u h, (r, refl, refl, d, c))
      | inr d ↦ elim (Bool-cases (contains r.status_code policy.retry_on)) [
        | inl f ↦ rw (c, d, f) (keeps_sent attempt s u h, rw (c, d) refl)
        | inr f ↦ rw (c, d, f) (keeps_sent attempt s u h, rw (c, d) refl)
      ]
    ]
  ]

  once : (s : Net) → Told (w.outcome 1) s headers (attempt_each w policy headers 1 1 none s)
  unfolding attempt_each
  once s = elim (check_cases policy.breaker_key (w.checked_at 1) policy.breaker_cooldown s) [
    | inl e ↦
        subst (Told (w.outcome 1) s headers) (sym (attempt_refused w policy headers 0 1 none s e))
          (inl (append_nil s.sent))
    | inr (t, e, same) ↦
        subst (Told (w.outcome 1) s headers) (sym (attempt_sent w policy headers 0 1 none s t e)) (
          respond-Told 1 (w.outcome 1) s (dispatch w policy headers t)
            (ap (λ x. x ++ headers ∷ []) same))
  ]

-- What a call of one attempt raises or returns says of its request what `Told` states, whatever the
-- transport, the breaker and the configuration do: `unavailable` is truthful but for a
-- `ConnectionError`.
pub call-Told :
    (w : World) (policy : CallPolicy) (url token : String)
    (correlation_id idempotency_key : Option String) (s : Net)
    → Told
        (w.outcome 1)
        s
        (headers_of token correlation_id idempotency_key)
        (call w (record policy { attempts = 1 }) url token correlation_id idempotency_key s)
unfolding call
call-Told w policy url token c i s = elim (Bool-cases (starts_with url "http")) [
  | inr b ↦ rw b (inl (append_nil s.sent))
  | inl b ↦ elim (Bool-cases (str_eq token "")) [
    | inl d ↦ rw (b, d) (inl (append_nil s.sent))
    | inr d ↦ rw (b, d) (once w (record policy { attempts = 1 }) (headers_of token c i) s)
  ]
]
