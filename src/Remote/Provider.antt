-- ===== src/Remote/Provider.antt =====
-- apps/inventory/providers/service.py: the operations that change the ledger.
use tip_metro_drip_ecommerce.Base.{
  ℕ, ◌+◌, ℤ, pos, String, str_append, str_eq, Bool, not, ◌||◌, Option, none, some, List, [], ◌∷◌,
  Dict, if◌then◌else◌, Value, as_int, as_positive,
}
use tip_metro_drip_ecommerce.Base.Action.{
  Result, ok, err, Action, pure, raise, or_raise, ◌>>=◌, ◌>>◌, raise_if,
}
use tip_metro_drip_ecommerce.Inventory.Adjust.{is_zero}
use tip_metro_drip_ecommerce.Inventory.Provider.{
  value_error, invalid_stock_adjustment, Line, sorted,
}
use tip_metro_drip_ecommerce.Inventory.Reserve.{is_empty}
use tip_metro_drip_ecommerce.Inventory.Settle.{tally}
use tip_metro_drip_ecommerce.Http.{Json, CallError, rejected}
use tip_metro_drip_ecommerce.Service.{
  ReservationOut, Body, reserve_response, commit_response, release_response, adjust_response,
  sweep_response, empty, Payload, adjust_request,
}
use tip_metro_drip_ecommerce.Service.Reservations.{all_positive}
use tip_metro_drip_ecommerce.Service.History.{reserve, commit, release, adjust_one, expire}
use tip_metro_drip_ecommerce.Remote.{
  Wire, Site, Link, RemoteError, stock, type_error, post, write_policy, in_txn_write_policy,
  unavailable_error, reserve_error, adjust_error, translate,
}

abbrev pub Call : Type 0 → Type 0
Call = Action RemoteError Link

-- `model_validate` for the kind of answer that a route has; an answer of another kind is refused.
abbrev pub reserved_rows : Option Body → Option (List ReservationOut)
reserved_rows none = none
reserved_rows (some (reserve_response c rows expires_at)) = some rows
reserved_rows (some (commit_response c n rows)) = none
reserved_rows (some (release_response c n)) = none
reserved_rows (some (adjust_response v q r a)) = none
reserved_rows (some (sweep_response n)) = none
reserved_rows (some empty) = none

abbrev pub committed_rows : Option Body → Option (List ReservationOut)
committed_rows none = none
committed_rows (some (reserve_response c rows expires_at)) = none
committed_rows (some (commit_response c n rows)) = some rows
committed_rows (some (release_response c n)) = none
committed_rows (some (adjust_response v q r a)) = none
committed_rows (some (sweep_response n)) = none
committed_rows (some empty) = none

abbrev pub released_count : Option Body → Option ℕ
released_count none = none
released_count (some (reserve_response c rows expires_at)) = none
released_count (some (commit_response c n rows)) = none
released_count (some (release_response c n)) = some n
released_count (some (adjust_response v q r a)) = none
released_count (some (sweep_response n)) = none
released_count (some empty) = none

abbrev pub expired_count : Option Body → Option ℕ
expired_count none = none
expired_count (some (reserve_response c rows expires_at)) = none
expired_count (some (commit_response c n rows)) = none
expired_count (some (release_response c n)) = none
expired_count (some (adjust_response v q r a)) = none
expired_count (some (sweep_response n)) = some n
expired_count (some empty) = none

-- `DummyStockRecord` of an adjustment; the threshold is not in its answer, which reads as 5.
pub record Counters : Type 0 where
  pub variant_id : ℕ
  pub qty_on_hand : ℕ
  pub qty_reserved : ℕ
  pub low_stock_threshold : ℕ
  pub available : ℤ

abbrev pub adjusted_counters : Option Body → Option Counters
adjusted_counters none = none
adjusted_counters (some (reserve_response c rows expires_at)) = none
adjusted_counters (some (commit_response c n rows)) = none
adjusted_counters (some (release_response c n)) = none
adjusted_counters (some (adjust_response v q r a)) = some (record {
  variant_id = v;
  qty_on_hand = q;
  qty_reserved = r;
  low_stock_threshold = 5;
  available = a;
})
adjusted_counters (some (sweep_response n)) = none
adjusted_counters (some empty) = none

-- `for row in parsed.lines: committed[row.variant_id] = …`
abbrev pub tally_rows : List ReservationOut → Dict ℕ → Dict ℕ
tally_rows [] d = d
tally_rows (r ∷ rs) d = tally_rows rs (tally r.variant_id r.qty d)

-- The key of an adjustment is the hash of its request.
abbrev pub adjustment_key : Site → Payload → String
adjustment_key site payload = site.sha256 (site.dumps payload)

module _ (site : Site) (wire : Wire) where
  unfoldable pub reserve_lines : String → List Line → String → Option ℕ → Call (List ReservationOut)
  unfolding post
  reserve_lines checkout_id lines session_key ttl_minutes = do
    raise_if (str_eq checkout_id "") (stock value_error)
    raise_if (is_empty lines || not (all_positive lines)) (stock value_error)
    answer ← translate reserve_error (
        post site wire write_policy "/v1/reservations" checkout_id
          (reserve checkout_id lines session_key ttl_minutes (some checkout_id)))
    or_raise (stock value_error) (reserved_rows (site.decode answer))

  -- The `uuid` is drawn when no checkout is named; a list that is not empty has a first row.
  unfoldable pub first_row : List ReservationOut → Option ReservationOut
  first_row [] = none
  first_row (r ∷ rs) = some r

  unfoldable pub reserve_stock : String → ℕ → Value → String → String → Call (Option ReservationOut)
  unfolding reserve_lines first_row
  reserve_stock uuid v qty session_key checkout_id = do
    n ← or_raise (stock value_error) (as_int qty)
    m ← or_raise (stock value_error) (as_positive n)
    rows ←
        reserve_lines (if str_eq checkout_id "" then uuid else checkout_id)
          (record { variant_id = v; qty = pos m } ∷ []) session_key none
    pure (first_row rows)

  unfoldable pub commit_holds : String → String → Option ℕ → Bool → Call (Dict ℕ)
  unfolding post
  commit_holds checkout_id order_no order_id inside_transaction = do
    answer ← translate unavailable_error (
        post site wire (if inside_transaction then in_txn_write_policy else write_policy)
          (str_append "/v1/reservations/" (str_append checkout_id "/commit"))
          (str_append checkout_id ":commit")
          (commit checkout_id order_no order_id (some (str_append checkout_id ":commit"))))
    rows ← or_raise (stock value_error) (committed_rows (site.decode answer))
    pure (tally_rows rows [])

  unfoldable pub release_holds : String → Call ℕ
  unfolding post
  release_holds checkout_id = do
    answer ← translate unavailable_error (
        post site wire write_policy
          (str_append "/v1/reservations/" (str_append checkout_id "/release"))
          (str_append checkout_id ":release")
          (release checkout_id (some (str_append checkout_id ":release"))))
    or_raise (stock value_error) (released_count (site.decode answer))

  -- Neither is in the contract of the service.
  unfoldable pub release_reservation : ℕ → Call (Unit {0})
  release_reservation k = raise (stock invalid_stock_adjustment)

  unfoldable pub commit_reservation : ℕ → Call (Unit {0})
  commit_reservation k = raise (stock invalid_stock_adjustment)

  unfoldable pub adjust_stock : ℕ → Value → String → String → Option ℕ → Call Counters
  unfolding post
  adjust_stock v delta reason order_no order_id = do
    d ← or_raise (stock invalid_stock_adjustment) (as_int delta)
    raise_if (is_zero d) (stock invalid_stock_adjustment)
    answer ← translate adjust_error (
        post site wire write_policy "/v1/stock/adjustments"
          (adjustment_key site (adjust_request v d reason order_no order_id))
          (adjust_one v d reason order_no order_id
            (some (adjustment_key site (adjust_request v d reason order_no order_id)))))
    or_raise (stock value_error) (adjusted_counters (site.decode answer))

  -- A sweep that cannot be made is reported as one of nothing.
  abbrev pub swept : Result CallError Json × Link → Result RemoteError ℕ × Link
  swept (ok answer, l) = or_raise (stock value_error) (expired_count (site.decode answer)) l
  swept (err (rejected n code message payload), l) = (ok 0, l)
  swept (err CallError.unavailable, l) = (ok 0, l)
  swept (err CallError.uncertain, l) = (ok 0, l)
  swept (err CallError.value_error, l) = (err (stock value_error), l)
  swept (err CallError.type_error, l) = (err type_error, l)

  unfoldable pub release_expired_reservations : String → Call ℕ
  unfolding post
  release_expired_reservations uuid l = swept (
      post site wire write_policy "/v1/maintenance/expire-reservations" (str_append "sweep:" uuid)
        expire l)

-- Every line is a call of its own; `wires` has one wire for each of them.
unfoldable pub restore_each : Site → (ℕ → Wire) → ℕ → String → ℕ → List Line → Call (Unit {0})
unfolding adjust_stock
restore_each site wires order_id order_no n [] = pure tt
restore_each site wires order_id order_no n (l ∷ ls) =
    adjust_stock site (wires n) l.variant_id (Value.int l.qty) "return" order_no (some order_id)
    >> restore_each site wires order_id order_no (n + 1) ls

unfoldable pub restore_order_stock : Site → (ℕ → Wire) → ℕ → String → List Line → Call (Unit {0})
unfolding restore_each
restore_order_stock site wires order_id order_no lines =
    restore_each site wires order_id order_no 0 (sorted lines)
