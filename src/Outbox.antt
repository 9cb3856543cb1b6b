-- ===== src/Outbox.antt =====
-- apps/orders/outbox.py, with the row of `OutboxMessage` in apps/orders/models.py. A handler is a
-- function of the world outside the table; the messages that it enqueues itself are new rows. Times
-- are in milliseconds.
pub mod Rows
pub mod Delivery
pub mod Tries
pub mod Crash
mod Tests
use tip_metro_drip_ecommerce.Base.{
  ℕ, zero, suc, ◌+◌, ◌*◌, ◌^◌, min, String, str_append, Bool, true, false, ◌&&◌, ◌||◌, Option, none,
  some, List, [], ◌∷◌, ◌++◌, select, leb, ◌==◌, if◌then◌else◌,
}
use tip_metro_drip_ecommerce.Base.Action.{Result, ok, err}

abbrev pub max_attempts : ℕ
max_attempts = 8

abbrev pub backoff_cap_seconds : ℕ
backoff_cap_seconds = 300

pub data OutboxState : Type 0 where
  pending sent dead : OutboxState

pub record Message (P : Type 0) : Type 0 where
  pub pk : ℕ
  pub topic : String
  pub payload : P
  pub state : OutboxState
  pub attempts : ℕ
  pub next_attempt_at : ℕ
  pub last_error : String
  pub sent_at : Option ℕ

-- `topic -> handler(payload)`: it raises to signal failure, with `str(error)[:2000]`. What it gets for
-- an empty payload, `message.payload or {}`, is its own affair.
abbrev pub Handlers : Type 0 → Type 0 → Type 0
Handlers P W = String → Option (P → W → Result String (Unit {0}) × W × List (Message P))

-- Whether the message was delivered, and what the delivery left.
abbrev pub Deliver : Type 0 → Type 0 → Type 0
Deliver P W = Bool × W × List (Message P)

pub record Drained (P W : Type 0) : Type 0 where
  pub delivered_count : ℕ
  pub failed_count : ℕ
  pub world : W
  pub rows : List (Message P)

-- What a drain reads from outside: the clock at the claim and at each delivery, and the thousandths
-- that `random.random()` gives for each message.
pub record Tick : Type 0 where
  pub claimed_at : ℕ
  pub now : ℕ → ℕ
  pub random : ℕ → ℕ

-- `_backoff_seconds`, in milliseconds: `base * (0.5 + random())`.
unfoldable pub backoff : ℕ → ℕ → ℕ
backoff attempts random = min (2 ^ attempts) backoff_cap_seconds * (500 + random)

abbrev pub is_pending : OutboxState → Bool
is_pending pending = true
is_pending sent = false
is_pending dead = false

module _ {P : Type 0} where
  -- `enqueue`
  unfoldable pub enqueue : ℕ → String → P → ℕ → List (Message P) → List (Message P)
  enqueue pk topic payload now rows =
      rows
      ++ record {
        pk = pk;
        topic = topic;
        payload = payload;
        state = pending;
        attempts = 0;
        next_attempt_at = now;
        last_error = "";
        sent_at = none;
      }
        ∷ []

  abbrev pub is_due : ℕ → Message P → Bool
  is_due now m = is_pending m.state && leb m.next_attempt_at now

  abbrev pub first : ℕ → List (Message P) → List (Message P)
  first zero ms = []
  first (suc n) [] = []
  first (suc n) (m ∷ ms) = m ∷ first n ms

  -- `.filter(state=PENDING, next_attempt_at__lte=now).order_by("id")[:batch_size]`
  pub claim : ℕ → ℕ → List (Message P) → List (Message P)
  claim now batch_size rows = first batch_size (select (is_due now) rows)

  abbrev pub has_pk : ℕ → List (Message P) → Bool
  has_pk k [] = false
  has_pk k (m ∷ ms) = m.pk == k || has_pk k ms

  -- `.filter(pk__in=…).update(attempts=F("attempts") + 1)`
  pub bump : List (Message P) → List (Message P) → List (Message P)
  bump claimed [] = []
  bump claimed (m ∷ ms) =
      (if has_pk m.pk claimed then record m { attempts = m.attempts + 1 } else m) ∷ bump claimed ms

  -- The transaction that claims: the messages to deliver, and the table that it commits.
  unfoldable pub claim_batch : ℕ → ℕ → List (Message P) → List (Message P) × List (Message P)
  unfolding claim bump
  claim_batch now batch_size rows =
      let claimed = claim now batch_size rows in (claimed, bump claimed rows)

  -- `.filter(pk=k).update(…)`
  pub update : ℕ → (Message P → Message P) → List (Message P) → List (Message P)
  update k change [] = []
  update k change (m ∷ ms) = (if m.pk == k then change m else m) ∷ update k change ms

  abbrev pub buried : String → Message P → Message P
  buried error m = record m { state = dead; last_error = error }

  abbrev pub postponed : ℕ → String → Message P → Message P
  postponed t error m = record m { next_attempt_at = t; last_error = error }

  abbrev pub delivered : ℕ → Message P → Message P
  delivered t m = record m { state = sent; sent_at = some t; last_error = "" }

  -- The row of a message whose handler raised: `attempts` counts this try.
  pub after_failure : Tick → Message P → String → Message P → Message P
  unfolding backoff
  after_failure tick m error =
      if leb max_attempts (m.attempts + 1)
      then buried error
      else postponed (tick.now m.pk + backoff (m.attempts + 1) (tick.random m.pk)) error

  module _ {W : Type 0} where
    -- What the handler left, written to the message's row. `m` is the row as it was claimed.
    pub settle :
        Tick
        → Message P
        → List (Message P)
        → Result String (Unit {0}) × W × List (Message P)
        → Deliver P W
    unfolding after_failure
    settle tick m rows (ok _, w, new) =
        (true, w, update m.pk (delivered (tick.now m.pk)) (rows ++ new))
    settle tick m rows (err e, w, new) =
        (false, w, update m.pk (after_failure tick m e) (rows ++ new))

    -- `_deliver_one`, by what `_HANDLERS.get(message.topic)` gave
    pub deliver_with :
        Tick
        → Message P
        → W
        → List (Message P)
        → Option (P → W → Result String (Unit {0}) × W × List (Message P))
        → Deliver P W
    unfolding settle update
    deliver_with tick m w rows none =
        (false, w, update m.pk (buried (str_append "no handler for topic " m.topic)) rows)
    deliver_with tick m w rows (some handle) = settle tick m rows (handle m.payload w)

    -- `_deliver_one`
    unfoldable pub deliver_one :
        Handlers P W → Tick → Message P → W → List (Message P) → Deliver P W
    unfolding deliver_with
    deliver_one handlers tick m w rows = deliver_with tick m w rows (handlers m.topic)

    pub deliver_each :
        Handlers P W → Tick → List (Message P) → ℕ → ℕ → W → List (Message P) → Drained P W
    unfolding deliver_one
    deliver_each handlers tick [] d f w rows = record {
      delivered_count = d;
      failed_count = f;
      world = w;
      rows = rows;
    }
    deliver_each handlers tick (m ∷ ms) d f w rows =
        let (done, w', rows') = deliver_one handlers tick m w rows in
        deliver_each handlers tick ms (if done then d + 1 else d) (if done then f else f + 1) w'
          rows'

    -- `drain_outbox`
    unfoldable pub drain_outbox : Handlers P W → Tick → ℕ → W → List (Message P) → Drained P W
    unfolding claim_batch deliver_each
    drain_outbox handlers tick batch_size w rows =
        let (claimed, rows') = claim_batch tick.claimed_at batch_size rows in
        deliver_each handlers tick claimed 0 0 w rows'
