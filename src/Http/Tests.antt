-- ===== src/Http/Tests.antt =====
-- A service that times out, refuses connections, answers, or says no.
use Prim.Native.String.{String}
use tip_metro_drip_ecommerce.Base.{
  ℕ, ◌-◌, ◌≤◌, ◌≡◌, refl, true, false, none, some, [], ◌∷◌, ltb, if◌then◌else◌, arith, ◌⊎◌, str_eq,
  starts_with,
}
use tip_metro_drip_ecommerce.Base.Action.{ok, err}
use tip_metro_drip_ecommerce.Http.{
  Json, Fields, Response, Outcome, CallError, CallPolicy, Net, World, check, record_failure, call,
  is_blank,
}
use tip_metro_drip_ecommerce.Http.Attempts.{Sends, headers_of}
use tip_metro_drip_ecommerce.Http.Breaker.{fail_each, half_open, fail_each_lem, check-passes}
use tip_metro_drip_ecommerce.Http.Sends.{call-Sends}
use tip_metro_drip_ecommerce.Http.Taxonomy.{Told, call-Told}
use tip_metro_drip_ecommerce.Http.Masking.{call-masks}

abbrev idle : Net
idle = record { circuits = λ _. record { failures = 0; opened_at = none }; sent = [] }

abbrev policy : CallPolicy
policy = record {
  attempts = 3;
  backoff_base = 50;
  retry_on = 502 ∷ 503 ∷ 504 ∷ [];
  breaker_key = "inventory";
  breaker_threshold = 2;
  breaker_cooldown = 30;
}

abbrev outage : ℕ → Outcome
outage k = if ltb k 2 then Outcome.read_timeout else Outcome.connect_timeout

abbrev failing : World
failing = record {
  checked_at = λ k. k;
  failed_at = λ k. k;
  outcome = outage;
  str = λ _. "";
  first_200 = λ s. s;
}

-- 409 with the envelope nested under `detail`.
abbrev conflict : Response
conflict = record {
  status_code = 409;
  json = some (
      Json.object (
        Fields.field "detail"
          (Json.object (
            Fields.field "error"
              (Json.object (Fields.field "code" (Json.scalar "insufficient_stock") Fields.end))
              Fields.end))
          Fields.end));
  text = "";
}

abbrev text : Json → String
text (Json.scalar s) = s
text (Json.object fs) = "{}"

abbrev refusing : World
refusing = record failing { outcome = λ _. Outcome.answered conflict; str = text }

call_rejects :
    (call refusing policy "http://inventory" "t" none (some "k") idle).0
    ≡ err (
        CallError.rejected 409 "insufficient_stock" "" (
          Json.object (
            Fields.field "detail"
              (Json.object (
                Fields.field "error"
                  (Json.object (Fields.field "code" (Json.scalar "insufficient_stock") Fields.end))
                  Fields.end))
              Fields.end)))
unfolding call
call_rejects = refl

call-Sends_example :
    (k : ℕ) × Sends k
      (headers_of "t" none (some "k"))
      idle
      (call failing policy "http://inventory" "t" none (some "k") idle).1
    × (k ≤ 3)
    × ((is_blank (some "k") ≡ false) ⊎ (k ≤ 1))
    × (((str_eq "t" "" ≡ false) × (starts_with "http://inventory" "http" ≡ true)) ⊎ (k ≡ 0))
call-Sends_example = call-Sends failing policy "http://inventory" "t" none (some "k") idle

call-Told_example :
    Told Outcome.read_timeout idle
      (headers_of "t" none none)
      (call failing (record policy { attempts = 1 }) "http://inventory" "t" none none idle)
call-Told_example = call-Told failing policy "http://inventory" "t" none none idle

outage_lem : (k : ℕ) → 2 ≤ k → outage k ≡ Outcome.connect_timeout
outage_lem k h = ground arith

call-masks_example :
    (call failing policy "http://inventory" "t" none (some "k") idle).0 ≡ err CallError.unavailable
call-masks_example =
    call-masks 1 failing policy "http://inventory" "t" "k" none idle refl refl refl refl outage_lem

fail_each_lem_example :
    (check "inventory" 20 30 (fail_each "inventory" refl 2 (5 ∷ []) idle)
      ≡ (ok tt, fail_each "inventory" refl 2 (5 ∷ []) idle))
    × (check "inventory" 20 30 (fail_each "inventory" refl 2 (5 ∷ 7 ∷ 9 ∷ []) idle) ≡ (
        if ltb (20 - 7) 30
        then (err CallError.unavailable, fail_each "inventory" refl 2 (5 ∷ 7 ∷ 9 ∷ []) idle)
        else (
          ok tt,
          half_open "inventory" refl (fail_each "inventory" refl 2 (5 ∷ 7 ∷ 9 ∷ []) idle),
        )))
    × (((record_failure "inventory" 50 2 (
            half_open "inventory" refl
              (fail_each "inventory" refl 2 (5 ∷ 7 ∷ 9 ∷ []) idle))).circuits
          "inventory").opened_at
        ≡ some 50)
fail_each_lem_example = fail_each_lem "inventory" refl (5 ∷ []) (9 ∷ []) 7 idle 20 30 50 refl refl

check-passes_example :
    ((check "inventory" 40 30 (fail_each "inventory" refl 2 (5 ∷ 7 ∷ []) idle)).0 ≡ ok tt)
    × (check "inventory" 41 30
          (check "inventory" 40 30 (fail_each "inventory" refl 2 (5 ∷ 7 ∷ []) idle)).1
        ≡ (ok tt, (check "inventory" 40 30 (fail_each "inventory" refl 2 (5 ∷ 7 ∷ []) idle)).1))
check-passes_example =
    check-passes "inventory" refl 40 30 7 41 30 (fail_each "inventory" refl 2 (5 ∷ 7 ∷ []) idle)
      refl refl
