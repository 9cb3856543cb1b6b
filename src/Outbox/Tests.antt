-- ===== src/Outbox/Tests.antt =====
-- Two confirmations and a webhook whose receiver is down, drained by one worker.
use Prim.Native.String.{String}
use tip_metro_drip_ecommerce.Base.{
  ℕ, ◌+◌, ◌≡◌, refl, str_eq, true, false, none, some, List, [], ◌∷◌, if◌then◌else◌, arith, ◌⊎◌,
}
use tip_metro_drip_ecommerce.Base.Action.{ok, err}
use tip_metro_drip_ecommerce.Outbox.{
  OutboxState, pending, sent, dead, Message, Handlers, Tick, Drained, is_due, claim, has_pk,
  drain_outbox,
}
use tip_metro_drip_ecommerce.Outbox.Rows.{find, IsKeyed, tried}
use tip_metro_drip_ecommerce.Outbox.Delivery.{Fate, world_at, drain_outbox-Fate}
use tip_metro_drip_ecommerce.Outbox.Tries.{IsYoung, drain_outbox-IsYoung}
use tip_metro_drip_ecommerce.Outbox.Crash.{crashes, IsWaiting, crashes_lem}

abbrev message : ℕ → String → ℕ → Message ℕ
message k topic tries = record {
  pk = k;
  topic = topic;
  payload = k;
  state = pending;
  attempts = tries;
  next_attempt_at = 100;
  last_error = "";
  sent_at = none;
}

abbrev handlers : Handlers ℕ ℕ
handlers topic =
    if str_eq topic "order_paid"
    then some (λ p w. (ok tt, w + 1, []))
    else if str_eq topic "webhook"
    then some (λ p w. (err "down", w, []))
    else none

abbrev tick : Tick
tick = record { claimed_at = 200; now = λ _. 250; random = λ _. 0 }

abbrev table : List (Message ℕ)
table =
    message 1 "order_paid" 0
    ∷ message 2 "webhook" 7
    ∷ message 3 "webhook" 1
    ∷ message 4 "nothing" 0
    ∷ []

table-IsKeyed : IsKeyed table
table-IsKeyed = (refl, (refl, (refl, (refl, tt))))

drained_states : Drained ℕ ℕ → List OutboxState
drained_states d = states d.rows
  where
    states : List (Message ℕ) → List OutboxState
    states [] = []
    states (m ∷ ms) = m.state ∷ states ms

drained_test :
    drained_states (drain_outbox handlers tick 50 0 table) ≡ sent ∷ dead ∷ pending ∷ dead ∷ []
unfolding drain_outbox drained_states
drained_test = refl

drain_outbox-Fate_example :
    ((has_pk 3 (claim 200 50 table) ≡ false)
      × (find 3 (drain_outbox handlers tick 50 0 table).rows ≡ some (message 3 "webhook" 1)))
    ⊎ ((has_pk 3 (claim 200 50 table) ≡ true)
        × (is_due 200 (message 3 "webhook" 1) ≡ true)
        × ((r' : Message ℕ) × (find 3 (drain_outbox handlers tick 50 0 table).rows ≡ some r')
            × Fate handlers tick
                (message 3 "webhook" 1)
                (world_at handlers tick 3 (claim 200 50 table) 0)
                (tried (message 3 "webhook" 1))
                r'))
drain_outbox-Fate_example =
    drain_outbox-Fate handlers tick 3 50 0 table (message 3 "webhook" 1) table-IsKeyed refl

drain_outbox-IsYoung_example :
    (r' : Message ℕ) × (find 3 (drain_outbox handlers tick 50 0 table).rows ≡ some r')
    × IsYoung r'
    × (((has_pk 3 (claim 200 50 table) ≡ false) × (r' ≡ message 3 "webhook" 1))
        ⊎ ((has_pk 3 (claim 200 50 table) ≡ true) × (r'.attempts ≡ 2)))
drain_outbox-IsYoung_example =
    drain_outbox-IsYoung handlers tick 3 50 0 table (message 3 "webhook" 1) table-IsKeyed refl
      (λ _. omega arith)

abbrev delivered_before : Message ℕ
delivered_before = record (message 7 "order_paid" 1) { state = sent; sent_at = some 90 }

crashes_lem_example :
    IsWaiting
      (message 1 "order_paid" 0)
      3
      900
      50
      (crashes (200 ∷ 400 ∷ 600 ∷ []) 50 (delivered_before ∷ table))
crashes_lem_example =
    crashes_lem (200 ∷ 400 ∷ 600 ∷ []) 900 49 (message 1 "order_paid" 0) (delivered_before ∷ [])
      (message 2 "webhook" 7 ∷ message 3 "webhook" 1 ∷ message 4 "nothing" 0 ∷ []) (refl, tt) refl
      (refl, (refl, (refl, tt))) refl
