-- ===== src/Http.antt =====
-- apps/core/http.py: one call to an extracted service, its errors, its retries and the breaker. The
-- transport, the clock and the jitter are a `World`. Texts of errors that the code builds for the log
-- are left out, what a caller can read is kept.
pub mod Breaker
pub mod Attempts
pub mod Sends
pub mod Returned
pub mod Taxonomy
pub mod Masking
mod Tests
use tip_metro_drip_ecommerce.Base.{
  ℕ, zero, suc, ◌+◌, ◌-◌, ◌*◌, ◌^◌, String, str_append, str_eq, starts_with, Bool, true, false, not,
  ◌&&◌, ◌||◌, Option, none, some, List, [], ◌∷◌, ◌++◌, ltb, leb, ◌==◌, if◌then◌else◌,
}
use tip_metro_drip_ecommerce.Base.Action.{
  Result, ok, err, Action, pure, raise, gets, ◌>>=◌, ◌>>◌, modify, raise_if,
}

-- A decoded body: only the shapes that `_error_envelope` tells apart.
mutual
  pub data Json : Type 0 where
    object : Fields → Json
    scalar : String → Json

  pub data Fields : Type 0 where
    end : Fields
    field : String → Json → Fields → Fields

pub record Response : Type 0 where
  pub status_code : ℕ
  pub json : Option Json
  pub text : String

-- What `requests.request` does: it answers or it raises.
pub data Outcome : Type 0 where
  answered : Response → Outcome
  read_timeout connect_timeout connection_error request_exception : Outcome

pub data CallError : Type 0 where
  rejected : ℕ → String → String → Json → CallError
  unavailable uncertain value_error : CallError
  -- `raise None`
  type_error : CallError

pub record CallPolicy : Type 0 where
  pub attempts : ℕ
  pub backoff_base : ℕ
  pub retry_on : List ℕ
  pub breaker_key : String
  pub breaker_threshold : ℕ
  pub breaker_cooldown : ℕ

-- `_failures` and `_opened_at` at one key; no failure stands for a missing entry.
pub record Circuit : Type 0 where
  pub failures : ℕ
  pub opened_at : Option ℕ

pub record Headers : Type 0 where
  pub authorization : String
  pub correlation_id : Option String
  pub idempotency_key : Option String

-- The breaker, and the requests that left this process.
pub record Net : Type 0 where
  pub circuits : String → Circuit
  pub sent : List Headers

-- By attempt: the clock at the breaker's check and at its record, what the transport does. `str` of a
-- body and the first 200 characters of a text are Python's.
pub record World : Type 0 where
  pub checked_at : ℕ → ℕ
  pub failed_at : ℕ → ℕ
  pub outcome : ℕ → Outcome
  pub str : Json → String
  pub first_200 : String → String

abbrev pub Call : Type 0
Call = Action CallError Net Json

abbrev pub set_circuit : String → Circuit → Net → Net
set_circuit key c s = record s { circuits = λ k. if str_eq k key then c else s.circuits k }

-- `_CircuitBreaker.check` after its test of the key, by what `_opened_at.get(key)` gave
abbrev pub admit : String → ℕ → ℕ → Circuit → Option ℕ → Action CallError Net (Unit {0})
admit key now cooldown c none = pure tt
admit key now cooldown c (some opened) =
    raise_if (ltb (now - opened) cooldown) unavailable
    >> modify (set_circuit key (record c { opened_at = none }))

-- `_CircuitBreaker.check`
abbrev pub check : String → ℕ → ℕ → Action CallError Net (Unit {0})
check key now cooldown s =
    if str_eq key ""
    then (ok tt, s)
    else admit key now cooldown (s.circuits key) (s.circuits key).opened_at s

-- `_CircuitBreaker.record_success`
abbrev pub record_success : String → Net → Net
record_success key s =
    if str_eq key "" then s else set_circuit key (record { failures = 0; opened_at = none }) s

abbrev pub opening : ℕ → ℕ → ℕ → Option ℕ → Option ℕ
opening now threshold count none = if leb threshold count then some now else none
opening now threshold count (some t) = some t

-- `_CircuitBreaker.record_failure`
abbrev pub record_failure : String → ℕ → ℕ → Net → Net
record_failure key now threshold s =
    let c = s.circuits key in
    if str_eq key ""
    then s
    else set_circuit key
        (record {
          failures = c.failures + 1;
          opened_at = opening now threshold (c.failures + 1) c.opened_at;
        })
        s

abbrev pub get : String → Fields → Option Json
get k end = none
get k (field j v fs) = if str_eq j k then some v else get k fs

abbrev pub is_object : Option Json → Bool
is_object none = false
is_object (some (object fs)) = true
is_object (some (scalar s)) = false

-- `payload["detail"].get("error")`, where `detail` is an object
abbrev pub nested_error : Option Json → Option Json
nested_error none = none
nested_error (some (object fs)) = get "error" fs
nested_error (some (scalar s)) = none

-- `str(error.get(k, ""))`
abbrev pub text_of : (Json → String) → Option Json → String
text_of str none = ""
text_of str (some v) = str v

abbrev pub envelope_of : World → Json → Option Json → String × String × Json
envelope_of w payload none = ("", w.first_200 (w.str payload), payload)
envelope_of w payload (some (object fs)) =
    (text_of w.str (get "code" fs), text_of w.str (get "message" fs), payload)
envelope_of w payload (some (scalar s)) = ("", w.first_200 (w.str payload), payload)

-- `_error_envelope`
pub error_envelope : World → Response → String × String × Json
error_envelope w r = elim r.json [
  | none ↦ ("", w.first_200 r.text, object end)
  | some (object fs) ↦
      let error = get "error" fs in
      envelope_of w (object fs) (
        if not (is_object error) && is_object (get "detail" fs)
        then nested_error (get "detail" fs)
        else error)
  | some (scalar s) ↦ ("", w.first_200 (w.str (scalar s)), object end)
]

abbrev pub contains : ℕ → List ℕ → Bool
contains n [] = false
contains n (m ∷ ms) = m == n || contains n ms

abbrev pub or_empty : Option Json → Json
or_empty none = object end
or_empty (some j) = j

module _ (w : World) (policy : CallPolicy) where
  abbrev pub failed : ℕ → Net → Net
  failed attempt = record_failure policy.breaker_key (w.failed_at attempt) policy.breaker_threshold

  -- The rest of one attempt, by what the transport did; `again` is the rest of the loop.
  pub respond : ℕ → (CallError → Call) → Outcome → Call
  unfolding error_envelope
  respond attempt again read_timeout = modify (failed attempt) >> again uncertain
  respond attempt again connect_timeout = modify (failed attempt) >> again unavailable
  respond attempt again connection_error = modify (failed attempt) >> again unavailable
  respond attempt again request_exception = modify (failed attempt) >> again uncertain
  respond attempt again (answered r) =
      if ltb r.status_code 400
      then modify (record_success policy.breaker_key) >> pure (or_empty r.json)
      else if ltb r.status_code 500
      then (modify (record_success policy.breaker_key)
          >> (let (code, message, payload) = error_envelope w r in
              raise (rejected r.status_code code message payload)))
      else (modify (failed attempt)
          >> (if contains r.status_code policy.retry_on then again uncertain else raise uncertain))

  abbrev pub give_up : Option CallError → Call
  give_up none = raise type_error
  give_up (some e) = raise e

  -- The loop over the attempts: how many are left, the number of the next one, and `last_error`.
  pub attempt_each : Headers → ℕ → ℕ → Option CallError → Call
  unfolding respond
  attempt_each headers zero attempt last = give_up last
  attempt_each headers (suc n) attempt last =
      check policy.breaker_key (w.checked_at attempt) policy.breaker_cooldown
      >> modify (λ s. record s { sent = s.sent ++ headers ∷ [] })
      >> respond attempt (λ e. attempt_each headers n (attempt + 1) (some e)) (w.outcome attempt)

abbrev pub is_blank : Option String → Bool
is_blank none = true
is_blank (some s) = str_eq s ""

abbrev pub unless_blank : Option String → Option String
unless_blank none = none
unless_blank (some s) = if str_eq s "" then none else some s

-- `call`
unfoldable pub call : World → CallPolicy → String → String → Option String → Option String → Call
unfolding attempt_each
call w policy url service_token correlation_id idempotency_key = do
  raise_if (ltb 1 policy.attempts && is_blank idempotency_key) value_error
  raise_if (not (starts_with url "http")) unavailable
  raise_if (str_eq service_token "") unavailable
  attempt_each w policy
      (record {
        authorization = str_append "Bearer " service_token;
        correlation_id = unless_blank correlation_id;
        idempotency_key = unless_blank idempotency_key;
      })
      policy.attempts 1 none
