-- ===== src/Remote.antt =====
-- apps/inventory/providers/service.py: the provider that calls the inventory service, over the model of
-- apps/core/http.py and against the model of the service itself. The reads are not modelled.
pub mod Provider
pub mod Once
pub mod Operations
pub mod Repeat
mod Tests
use tip_metro_drip_ecommerce.Base.{
  ℕ, zero, suc, ◌+◌, ◌-◌, ℤ, pos, String, str_append, str_eq, Bool, true, false, not, ◌&&◌, ◌||◌,
  Option, none, some, List, [], ◌∷◌, length, ◌==◌, ltb, if◌then◌else◌,
}
use tip_metro_drip_ecommerce.Base.Action.{
  Result, ok, err, Action, pure, raise, or_raise, ◌>>=◌, ◌>>◌, raise_if,
}
use tip_metro_drip_ecommerce.Inventory.Adjust.{is_zero}
use tip_metro_drip_ecommerce.Inventory.Provider.{
  StockError, value_error, insufficient_stock, invalid_stock_adjustment, reservation_unavailable,
  Line, sorted,
}
use tip_metro_drip_ecommerce.Inventory.Reserve.{is_empty}
use tip_metro_drip_ecommerce.Http.{
  Json, object, scalar, Fields, end, field, Outcome, answered, read_timeout, connection_error,
  CallError, rejected, CallPolicy, Net, World, call,
}
use tip_metro_drip_ecommerce.Http as Http
use tip_metro_drip_ecommerce.Service.{
  ReservationOut, Body, reserve_response, commit_response, release_response, adjust_response,
  sweep_response, empty, Payload, adjust_request, HttpError, Store, Response, Env,
}
use tip_metro_drip_ecommerce.Service as Service
use tip_metro_drip_ecommerce.Service.Reservations.{all_positive}
use tip_metro_drip_ecommerce.Service.History.{
  Request, reserve, commit, release, adjust_one, expire, handle,
}

-- What becomes of one attempt: `lost` before it arrives, or handled by the service and its answer
-- `heard`, not waited for (`unheard`), or `cut` off with the connection.
pub data Delivery : Type 0 where
  lost heard unheard cut : Delivery

-- By attempt: the clocks, of the breaker and of the service, and the delivery.
pub record Wire : Type 0 where
  pub checked_at : ℕ → ℕ
  pub failed_at : ℕ → ℕ
  pub now : ℕ → ℕ
  pub delivery : ℕ → Delivery
  pub correlation_id : Option String
  pub str : Json → String
  pub first_200 : String → String

-- The settings, without the slashes at the end of the address; `model_dump` and `model_validate` of
-- pydantic; `hashlib.sha256`; `json.dumps` as the service calls it and as the provider does.
pub record Site : Type 0 where
  pub base_url : String
  pub service_token : String
  pub encode : Body → Json
  pub decode : Json → Option Body
  pub sha256 : String → String
  pub canonical_dumps : Payload → String
  pub dumps : Payload → String

-- Both ends of the wire.
pub record Link : Type 0 where
  pub net : Net
  pub store : Store

-- `TypeError` beside the exceptions of the provider.
pub data RemoteError : Type 0 where
  stock : StockError → RemoteError
  type_error : RemoteError

abbrev pub error_status : HttpError → ℕ
error_status HttpError.idempotency_key_required = 400
error_status HttpError.in_progress = 409
error_status HttpError.idempotency_key_reuse = 422
error_status HttpError.unknown_variant = 404
error_status HttpError.insufficient_stock = 409
error_status HttpError.counters_cannot_cover_sale = 409
error_status HttpError.reserved_underflow = 409
error_status HttpError.invalid_delta = 400
error_status HttpError.invalid_reason = 400
error_status HttpError.would_break_reserved_invariant = 409
error_status HttpError.unprocessable = 422
error_status HttpError.server_error = 500

-- `envelope`, below the `detail` of FastAPI's `HTTPException`; its message is left out.
abbrev pub envelope : String → Option Json
envelope code = some (
    object
      (field "detail" (object (field "error" (object (field "code" (scalar code) end)) end)) end))

-- The last two are not the handlers': the list of pydantic, and the text of a failed request.
abbrev pub error_body : HttpError → Option Json
error_body HttpError.idempotency_key_required = envelope "idempotency_key_required"
error_body HttpError.in_progress = envelope "in_progress"
error_body HttpError.idempotency_key_reuse = envelope "idempotency_key_reuse"
error_body HttpError.unknown_variant = envelope "unknown_variant"
error_body HttpError.insufficient_stock = envelope "insufficient_stock"
error_body HttpError.counters_cannot_cover_sale = envelope "counters_cannot_cover_sale"
error_body HttpError.reserved_underflow = envelope "reserved_underflow"
error_body HttpError.invalid_delta = envelope "invalid_delta"
error_body HttpError.invalid_reason = envelope "invalid_reason"
error_body HttpError.would_break_reserved_invariant = envelope "would_break_reserved_invariant"
error_body HttpError.unprocessable = some (object (field "detail" (scalar "") end))
error_body HttpError.server_error = none

abbrev pub http_response : Site → Result HttpError Response → Http.Response
http_response site (ok r) = record {
  status_code = r.status_code;
  json = some (site.encode r.body);
  text = "";
}
http_response site (err e) = record { status_code = error_status e; json = error_body e; text = "" }

abbrev pub server : Site → ℕ → Env
server site now = record { now = now; sha256 = site.sha256; json_dumps = site.canonical_dumps }

abbrev pub after_delivery : Store → Result HttpError Response × Store → Delivery → Store
after_delivery s p lost = s
after_delivery s p heard = p.1
after_delivery s p unheard = p.1
after_delivery s p cut = p.1

-- The store of the service after the first attempts of a call.
unfoldable pub served : Site → Wire → Request → ℕ → Store → Store
served site wire r zero s = s
served site wire r (suc n) s =
    let before = served site wire r n s in
    after_delivery before (handle (server site (wire.now (suc n))) r before) (wire.delivery (suc n))

abbrev pub outcome_of : Site → Result HttpError Response → Delivery → Outcome
outcome_of site p lost = connection_error
outcome_of site p heard = answered (http_response site p)
outcome_of site p unheard = read_timeout
outcome_of site p cut = connection_error

-- What the transport does at each attempt; they are numbered from 1.
abbrev pub outcome_at : Site → Wire → Request → Store → ℕ → Outcome
outcome_at site wire r s zero = connection_error
outcome_at site wire r s (suc n) =
    outcome_of site (handle (server site (wire.now (suc n))) r (served site wire r n s)).0
      (wire.delivery (suc n))

abbrev pub world : Site → Wire → Request → Store → World
world site wire r s = record {
  checked_at = wire.checked_at;
  failed_at = wire.failed_at;
  outcome = outcome_at site wire r s;
  str = wire.str;
  first_200 = wire.first_200;
}

-- `call` to the service, which handles every attempt that was sent and not lost.
unfoldable pub post :
    Site → Wire → CallPolicy → String → String → Request → Action CallError Link Json
post site wire policy route key r l =
    let (answer, net) =
      call (world site wire r l.store) policy (str_append site.base_url route) site.service_token
        wire.correlation_id (some key) l.net in
    (
      answer,
      record {
        net = net;
        store = served site wire r (length net.sent - length l.net.sent) l.store;
      },
    )

abbrev pub write_policy : CallPolicy
write_policy = record {
  attempts = 3;
  backoff_base = 50;
  retry_on = 502 ∷ 503 ∷ 504 ∷ [];
  breaker_key = "inventory.write";
  breaker_threshold = 5;
  breaker_cooldown = 30;
}

abbrev pub in_txn_write_policy : CallPolicy
in_txn_write_policy = record write_policy { attempts = 1 }

-- `except ServiceCallError: raise ReservationUnavailable`; `call` also raises a `ValueError` for its
-- arguments, which passes.
abbrev pub unavailable_error : CallError → RemoteError
unavailable_error (rejected n code message payload) = stock reservation_unavailable
unavailable_error CallError.unavailable = stock reservation_unavailable
unavailable_error CallError.uncertain = stock reservation_unavailable
unavailable_error CallError.value_error = stock value_error
unavailable_error CallError.type_error = type_error

abbrev pub reserve_error : CallError → RemoteError
reserve_error (rejected n code message payload) =
    if str_eq code "insufficient_stock" then stock insufficient_stock else stock value_error
reserve_error CallError.unavailable = unavailable_error CallError.unavailable
reserve_error CallError.uncertain = unavailable_error CallError.uncertain
reserve_error CallError.value_error = unavailable_error CallError.value_error
reserve_error CallError.type_error = unavailable_error CallError.type_error

abbrev pub adjust_error : CallError → RemoteError
adjust_error (rejected n code message payload) = stock invalid_stock_adjustment
adjust_error CallError.unavailable = unavailable_error CallError.unavailable
adjust_error CallError.uncertain = unavailable_error CallError.uncertain
adjust_error CallError.value_error = unavailable_error CallError.value_error
adjust_error CallError.type_error = unavailable_error CallError.type_error

abbrev pub translate :
    {A : Type 0} → (CallError → RemoteError) → Action CallError Link A → Action RemoteError Link A
translate f m l = elim (m l).0 [ ok a ↦ (ok a, (m l).1) | err e ↦ (err (f e), (m l).1) ]
