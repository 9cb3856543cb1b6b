-- ===== src/Http/Attempts.antt =====
-- apps/core/http.py: one attempt of the loop of `call`, and the requests that it sends.
use tip_metro_drip_ecommerce.Base.{
  ℕ, zero, suc, ◌+◌, ◌-◌, ◌≡◌, refl, ap, String, str_append, str_eq, Bool, true, false, not, ◌||◌,
  Option, none, some, List, [], ◌∷◌, ◌++◌, ltb, Bool-cases, Option-cases, inl, inr, ◌⊎◌,
}
use tip_metro_drip_ecommerce.Base.Action.{Result, ok, err, ◌>>◌, modify}
use tip_metro_drip_ecommerce.Base.Invert.{bind_ok, bind_err}
use tip_metro_drip_ecommerce.Http.{
  Outcome, answered, read_timeout, connect_timeout, connection_error, request_exception, CallError,
  unavailable, CallPolicy, Headers, Net, World, Call, set_circuit, check, record_success,
  record_failure, respond, attempt_each, unless_blank,
}

-- The same headers, one for each request.
abbrev pub copies : ℕ → Headers → List Headers
copies zero h = []
copies (suc n) h = h ∷ copies n h

-- The request may have reached the service and been applied: no 4xx came back, and the transport does
-- not say that no connection stood. A `ConnectionError` does not say it: a connection may also break
-- after the request was sent.
abbrev pub may_apply : Outcome → Bool
may_apply read_timeout = true
may_apply request_exception = true
may_apply connect_timeout = false
may_apply connection_error = true
may_apply (answered r) = ltb r.status_code 400 || not (ltb r.status_code 500)

-- `n` requests with these headers went out between two states.
abbrev pub Sends : ℕ → Headers → Net → Net → Type 0
Sends n h s t = t.sent ≡ s.sent ++ copies n h

pub append_nil : (hs : List Headers) → hs ≡ hs ++ []
append_nil [] = refl
append_nil (h ∷ hs) = ap (λ z. h ∷ z) (append_nil hs)

pub append_assoc : (xs ys zs : List Headers) → (xs ++ ys) ++ zs ≡ xs ++ (ys ++ zs)
append_assoc [] ys zs = refl
append_assoc (x ∷ xs) ys zs = ap (λ z. x ∷ z) (append_assoc xs ys zs)

pub record_failure-sent : (k : String) (t n : ℕ) (s : Net) → (record_failure k t n s).sent ≡ s.sent
record_failure-sent k t n s = elim (Bool-cases (str_eq k "")) [
  | inl e ↦ rw e refl
  | inr e ↦ rw e refl
]

pub record_success-sent : (k : String) (s : Net) → (record_success k s).sent ≡ s.sent
record_success-sent k s = elim (Bool-cases (str_eq k "")) [ inl e ↦ rw e refl | inr e ↦ rw e refl ]

-- The check refuses and writes nothing, or passes and sends nothing.
pub check_cases :
    (k : String) (now cooldown : ℕ) (s : Net)
    → (check k now cooldown s ≡ (err unavailable, s))
      ⊎ ((t : Net) × (check k now cooldown s ≡ (ok tt, t)) × (t.sent ≡ s.sent))
check_cases k now cooldown s = elim (Bool-cases (str_eq k "")) [
  | inl e ↦ inr (s, rw e refl, refl)
  | inr e ↦ elim (Option-cases (s.circuits k).opened_at) [
    | inl c ↦ inr (s, rw (e, c) refl, refl)
    | inr (t, c) ↦ elim (Bool-cases (ltb (now - t) cooldown)) [
      | inl b ↦ inl (rw (e, c, b) refl)
      | inr b ↦ inr (
        set_circuit k (record { failures = (s.circuits k).failures; opened_at = none }) s,
        rw (e, c, b) refl,
        refl,
      )
    ]
  ]
]

-- The headers of every request of one call.
abbrev pub headers_of : String → Option String → Option String → Headers
headers_of token correlation_id idempotency_key = record {
  authorization = str_append "Bearer " token;
  correlation_id = unless_blank correlation_id;
  idempotency_key = unless_blank idempotency_key;
}

module _ (w : World) (policy : CallPolicy) (headers : Headers) where
  abbrev pub dispatch : Net → Net
  dispatch t = record t { sent = t.sent ++ headers ∷ [] }

  abbrev pub retry : ℕ → ℕ → CallError → Call
  retry n attempt e = attempt_each w policy headers n (attempt + 1) (some e)

  abbrev pub checked : ℕ → Net → Result CallError (Unit {0}) × Net
  checked attempt = check policy.breaker_key (w.checked_at attempt) policy.breaker_cooldown

  -- An attempt that the breaker refuses, and one that goes out.
  pub attempt_refused :
      (n attempt : ℕ) (last : Option CallError) (s : Net)
      → checked attempt s ≡ (err unavailable, s)
      → attempt_each w policy headers (suc n) attempt last s ≡ (err unavailable, s)
  unfolding attempt_each
  attempt_refused n attempt last s e =
      bind_err (checked attempt >> modify dispatch)
        (λ _. respond w policy attempt (retry n attempt) (w.outcome attempt)) s
        (bind_err (checked attempt) (λ _. modify dispatch) s e)

  pub attempt_sent :
      (n attempt : ℕ) (last : Option CallError) (s t : Net)
      → checked attempt s ≡ (ok tt, t)
      → attempt_each w policy headers (suc n) attempt last s
        ≡ respond w policy attempt (retry n attempt) (w.outcome attempt) (dispatch t)
  unfolding attempt_each
  attempt_sent n attempt last s t e =
      bind_ok (checked attempt >> modify dispatch)
        (λ _. respond w policy attempt (retry n attempt) (w.outcome attempt)) s
        (bind_ok (checked attempt) (λ _. modify dispatch) s e)
