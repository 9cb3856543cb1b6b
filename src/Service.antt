-- ===== src/Service.antt =====
-- services/inventory/models.py and services/inventory/idempotency.py: the stock ledger behind HTTP. The
-- rows have the columns of apps/inventory/models.py; a claimed key keeps the answer that was given.
pub mod Reservations
pub mod Adjustments
pub mod Reads
pub mod Rows
pub mod Well
pub mod Kept
pub mod History
pub mod Claims
pub mod Lasting
pub mod Replay
mod Tests
use tip_metro_drip_ecommerce.Base.{
  ℕ, ℤ, String, str_append, str_eq, Bool, true, false, not, Option, none, some, List, [], ◌∷◌, ◌++◌,
  ◌==◌, if◌then◌else◌,
}
use tip_metro_drip_ecommerce.Base.Action.{
  Result, ok, err, Action, pure, raise, gets, ◌>>=◌, ◌>>◌, modify, raise_if,
}
use tip_metro_drip_ecommerce.Inventory.{Ledger}
use tip_metro_drip_ecommerce.Inventory.Provider.{Line}

-- `ReservationOut`
pub record ReservationOut : Type 0 where
  pub id : ℕ
  pub variant_id : ℕ
  pub qty : ℕ

-- The bodies of the answers.
pub data Body : Type 0 where
  reserve_response : String → List ReservationOut → ℕ → Body
  commit_response : String → ℕ → List ReservationOut → Body
  release_response : String → ℕ → Body
  adjust_response : ℕ → ℕ → ℕ → ℤ → Body
  sweep_response : ℕ → Body
  empty : Body

-- The requests whose fingerprints are compared.
pub data Payload : Type 0 where
  reserve_request : String → List Line → String → Option ℕ → Payload
  commit_request : String → Option ℕ → Payload
  release_request : Payload
  adjust_request : ℕ → ℤ → String → String → Option ℕ → Payload

-- The codes of the error envelopes; `unprocessable` is a body that pydantic refuses, `server_error` a
-- counter that the database refuses.
pub data HttpError : Type 0 where
  idempotency_key_required in_progress idempotency_key_reuse : HttpError
  unknown_variant insufficient_stock counters_cannot_cover_sale reserved_underflow : HttpError
  invalid_delta invalid_reason would_break_reserved_invariant : HttpError
  unprocessable server_error : HttpError

pub record Claim : Type 0 where
  pub key_hash : String
  pub request_fingerprint : String
  -- 0 while the request is in flight.
  pub status_code : ℕ
  pub response_body : Body

pub record Store : Type 0 where
  pub tables : Ledger
  pub claims : List Claim

pub record Response : Type 0 where
  pub status_code : ℕ
  pub replayed : Bool
  pub body : Body

-- What a block stops with: an HTTP error, or `Replay` with the stored answer.
pub data Stop : Type 0 where
  http : HttpError → Stop
  replay : ℕ → Body → Stop

-- The clock, and `hashlib.sha256` and `json.dumps` of the standard library.
pub record Env : Type 0 where
  pub now : ℕ
  pub sha256 : String → String
  pub json_dumps : Payload → String

abbrev pub Block : Type 0 → Type 0
Block = Action Stop Store

abbrev pub find_claim : String → List Claim → Option Claim
find_claim h [] = none
find_claim h (c ∷ cs) = if str_eq c.key_hash h then some c else find_claim h cs

-- The row of this hash, with the answer.
abbrev pub fill_claim : String → ℕ → Body → List Claim → List Claim
fill_claim h code body [] = []
fill_claim h code body (c ∷ cs) =
    if str_eq c.key_hash h
    then record c { status_code = code; response_body = body } ∷ cs
    else c ∷ fill_claim h code body cs

unfoldable pub hash_key : Env → String → String → String
hash_key env route key = env.sha256 (str_append route (str_append ":" key))

unfoldable pub fingerprint : Env → Payload → String
fingerprint env payload = env.sha256 (env.json_dumps payload)

abbrev pub new_claim : String → String → Claim
new_claim h print = record {
  key_hash = h;
  request_fingerprint = print;
  status_code = 0;
  response_body = empty;
}

-- `_resolve_existing`, for the row that is there.
unfoldable pub resolve_existing : Claim → String → Block (Unit {0})
resolve_existing c print = do
  raise_if (not (str_eq c.request_fingerprint print)) (http idempotency_key_reuse)
  raise_if (c.status_code == 0) (http in_progress)
  raise (replay c.status_code c.response_body)

-- The INSERT of the key, which collides with a row that is there.
unfoldable pub insert_or_resolve : String → String → Option Claim → Block String
unfolding resolve_existing
insert_or_resolve h print none =
    modify (λ s. record s { claims = s.claims ++ new_claim h print ∷ [] }) >> pure h
insert_or_resolve h print (some c) = resolve_existing c print >> pure h

unfoldable pub claim : Env → String → String → Payload → Block String
unfolding insert_or_resolve hash_key fingerprint
claim env route key payload = do
  raise_if (str_eq key "") (http idempotency_key_required)
  existing ← gets (λ s. find_claim (hash_key env route key) s.claims)
  insert_or_resolve (hash_key env route key) (fingerprint env payload) existing

-- `record`, the store of the outcome.
abbrev pub record_answer : String → ℕ → Body → Block (Unit {0})
record_answer h code body = modify (λ s. record s { claims = fill_claim h code body s.claims })

-- A block that works on the tables of the ledger.
abbrev pub on_tables : {A : Type 0} → Action HttpError Ledger A → Block A
on_tables m s = elim (m s.tables).0 [
  | ok a ↦ (ok a, record s { tables = (m s.tables).1 })
  | err e ↦ (err (http e), record s { tables = (m s.tables).1 })
]

-- The outcome of the work of a guarded handler.
unfoldable pub finish : {A : Type 0} → ℕ → (A → Body) → String → A → Block Response
finish code answer h a =
    record_answer h code (answer a)
    >> pure (record { status_code = code; replayed = false; body = answer a })

unfoldable pub work_under :
    {A : Type 0} → ℕ → Action HttpError Ledger A → (A → Body) → String → Block Response
unfolding finish
work_under code work answer h = on_tables work >>= finish code answer h

-- A guarded handler up to its commit: the key is claimed, the work is done, its answer is recorded.
unfoldable pub guarded :
    {A : Type 0}
    → Env
    → String
    → String
    → Payload
    → ℕ
    → Action HttpError Ledger A
    → (A → Body)
    → Block Response
unfolding claim work_under
guarded env route key payload code work answer =
    claim env route key payload >>= work_under code work answer

-- The session of a request: an exception rolls everything back, and `Replay` is answered with the
-- stored body. Only the route of reservations sends the stored status too; `code` is the others'.
unfoldable pub respond : (ℕ → ℕ) → Block Response → Action HttpError Store Response
respond code m s = elim (m s).0 [
  | ok r ↦ (ok r, (m s).1)
  | err x ↦ elim x [
    | http e ↦ (err e, s)
    | replay stored body ↦
        (ok (record { status_code = code stored; replayed = true; body = body }), s)
  ]
]
