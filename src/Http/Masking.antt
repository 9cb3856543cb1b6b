-- ===== src/Http/Masking.antt =====
-- apps/core/http.py: what the last of several attempts hides.
use tip_metro_drip_ecommerce.Base.{
  ℕ, zero, suc, ◌+◌, ◌≤◌, ◌≡◌, refl, ap, ◌∙◌, String, str_eq, starts_with, Bool, true, false, ◌&&◌,
  Option, none, some, ltb, arith, inl, inr, ◌⊎◌,
}
use tip_metro_drip_ecommerce.Base.Action.{Result, err}
use tip_metro_drip_ecommerce.Http.{
  Json, Outcome, read_timeout, connect_timeout, CallError, unavailable, uncertain, CallPolicy,
  Headers, Net, World, Call, failed, respond, attempt_each, call,
}
use tip_metro_drip_ecommerce.Http.Attempts.{
  check_cases, headers_of, dispatch, retry, attempt_refused, attempt_sent,
}

module _ (w : World) (policy : CallPolicy) (headers : Headers) where
  respond_refused :
      (attempt : ℕ) (again : CallError → Call) (o : Outcome) (u : Net)
      → o ≡ connect_timeout
      → respond w policy attempt again o u ≡ again unavailable (failed w policy attempt u)
  unfolding respond
  respond_refused attempt again o u e = rw e refl

  respond_timed_out :
      (attempt : ℕ) (again : CallError → Call) (o : Outcome) (u : Net)
      → o ≡ read_timeout
      → respond w policy attempt again o u ≡ again uncertain (failed w policy attempt u)
  unfolding respond
  respond_timed_out attempt again o u e = rw e refl

  unreachable :
      (n attempt : ℕ) (e : CallError) (s : Net)
      → ((k : ℕ) → attempt ≤ k → w.outcome k ≡ connect_timeout)
      → (e ≡ unavailable) ⊎ (1 ≤ n)
      → (attempt_each w policy headers n attempt (some e) s).0 ≡ err unavailable
  unfolding attempt_each
  unreachable zero attempt e s h (inl x) = ap err x
  unreachable zero attempt e s h (inr x) = absurd (omega arith)
  unreachable (suc n) attempt e s h x =
      elim (check_cases policy.breaker_key (w.checked_at attempt) policy.breaker_cooldown s) [
        | inl c ↦
            ap (λ (p : Result CallError Json × Net). p.0)
              (attempt_refused w policy headers n attempt (some e) s c)
        | inr (t, c, same) ↦
            ap (λ (p : Result CallError Json × Net). p.0)
              (attempt_sent w policy headers n attempt (some e) s t c
                ∙ respond_refused attempt (retry w policy headers n attempt) (w.outcome attempt)
                    (dispatch w policy headers t) (h attempt (omega arith)))
            ∙ unreachable n (attempt + 1) unavailable
                (failed w policy attempt (dispatch w policy headers t)) (λ k b. h k (omega arith))
                (inl refl)
      ]

  masked :
      (n : ℕ) (s : Net)
      → w.outcome 1 ≡ read_timeout
      → ((k : ℕ) → 2 ≤ k → w.outcome k ≡ connect_timeout)
      → (attempt_each w policy headers (suc (suc n)) 1 none s).0 ≡ err unavailable
  masked n s first rest =
      elim (check_cases policy.breaker_key (w.checked_at 1) policy.breaker_cooldown s) [
        | inl c ↦
            ap (λ (p : Result CallError Json × Net). p.0)
              (attempt_refused w policy headers (suc n) 1 none s c)
        | inr (t, c, same) ↦
            ap (λ (p : Result CallError Json × Net). p.0)
              (attempt_sent w policy headers (suc n) 1 none s t c
                ∙ respond_timed_out 1 (retry w policy headers (suc n) 1) (w.outcome 1)
                    (dispatch w policy headers t) first)
            ∙ unreachable (suc n) 2 uncertain (failed w policy 1 (dispatch w policy headers t)) rest
                (inr (omega arith))
      ]

and_false : (b : Bool) → (b && false) ≡ false
and_false true = refl
and_false false = refl

call_runs :
    (w : World) (policy : CallPolicy) (url token key : String) (correlation_id : Option String)
    (s : Net)
    → str_eq key "" ≡ false
    → starts_with url "http" ≡ true
    → str_eq token "" ≡ false
    → call w policy url token correlation_id (some key) s
      ≡ attempt_each w policy (headers_of token correlation_id (some key)) policy.attempts 1 none s
unfolding call
call_runs w policy url token key c s named configured authorized =
    rw (named, and_false (ltb 1 policy.attempts), configured, authorized) refl

-- With more attempts the last one decides alone. Let the call have a key, a token and an address. If
-- the first request timed out after it was sent, so that it may have been applied, and the service
-- cannot be reached afterwards, then the call raises `unavailable`, whatever the number of attempts
-- and the state of the breaker.
pub call-masks :
    (n : ℕ) (w : World) (policy : CallPolicy) (url token key : String)
    (correlation_id : Option String) (s : Net)
    → str_eq key "" ≡ false
    → starts_with url "http" ≡ true
    → str_eq token "" ≡ false
    → w.outcome 1 ≡ read_timeout
    → ((k : ℕ) → 2 ≤ k → w.outcome k ≡ connect_timeout)
    → (call w (record policy { attempts = suc (suc n) }) url token correlation_id (some key) s).0
      ≡ err unavailable
call-masks n w policy url token key c s named configured authorized first rest =
    ap (λ (p : Result CallError Json × Net). p.0)
      (call_runs w (record policy { attempts = suc (suc n) }) url token key c s named configured
        authorized)
    ∙ masked w (record policy { attempts = suc (suc n) }) (headers_of token c (some key)) n s first
        rest
