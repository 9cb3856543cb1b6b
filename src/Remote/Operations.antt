-- ===== src/Remote/Operations.antt =====
-- apps/inventory/providers/service.py: the operations that carry an idempotency key, over a wire that
-- loses requests and answers.
use tip_metro_drip_ecommerce.Base.{
  ℕ, ◌-◌, ◌≡◌, refl, sym, ◌∙◌, subst, ℤ, String, str_append, str_eq, Bool, true, false, not, ◌||◌,
  Option, none, some, List, [], length, if◌then◌else◌, Value,
}
use tip_metro_drip_ecommerce.Base.Action.{
  Result, ok, err, Action, pure, or_raise, raise_if, ◌>>=◌, ◌>>◌,
}
use tip_metro_drip_ecommerce.Inventory.Provider.{value_error, invalid_stock_adjustment, Line}
use tip_metro_drip_ecommerce.Inventory.Reserve.{is_empty}
use tip_metro_drip_ecommerce.Inventory.Adjust.{is_zero}
use tip_metro_drip_ecommerce.Http.{Json, CallError, CallPolicy}
use tip_metro_drip_ecommerce.Service.{ReservationOut, adjust_request}
use tip_metro_drip_ecommerce.Service.Reservations.{all_positive}
use tip_metro_drip_ecommerce.Service.History.{Request, reserve, commit, release, adjust_one}
use tip_metro_drip_ecommerce.Service.Replay.{has_key}
use tip_metro_drip_ecommerce.Remote.{
  Wire, Site, Link, RemoteError, stock, post, write_policy, in_txn_write_policy, unavailable_error,
  reserve_error, adjust_error, translate, served,
}
use tip_metro_drip_ecommerce.Remote.Provider.{
  reserve_lines, commit_holds, release_holds, adjust_stock, adjustment_key, reserved_rows,
  committed_rows, released_count, adjusted_counters, tally_rows,
}
use tip_metro_drip_ecommerce.Remote.Once.{IsOnce, served-IsOnce}

-- What follows the call only reads its answer.
module _ {A B : Type 0} (m : Action RemoteError Link A) (f : A → Action RemoteError Link B) where
  bind_reads : (l : Link) → ((a : A) (u : Link) → (f a u).1 ≡ u) → ((m >>= f) l).1 ≡ (m l).1
  bind_reads l h = from (m l)
    where
      from :
          (p : Result RemoteError A × Link)
          → (elim p.0 as (λ _. Result RemoteError B × Link) [
            | ok a ↦ f a p.1
            | err e ↦ (err e, p.1)
          ]).1
            ≡ p.1
      from (ok a, u) = h a u
      from (err e, u) = refl

pub or_raise_reads :
    {A : Type 0} (x : RemoteError) (o : Option A) (u : Link)
    → ◌≡◌ {A = Link} (or_raise {A = A} x o u).1 u
or_raise_reads x none u = refl
or_raise_reads x (some a) u = refl

translate_state :
    {A : Type 0} (f : CallError → RemoteError) (m : Action CallError Link A) (l : Link)
    → (translate f m l).1 ≡ (m l).1
translate_state {A} f m l = from (m l)
  where
    from :
        (p : Result CallError A × Link)
        → (elim p.0 as (λ _. Result RemoteError A × Link) [
          | ok a ↦ (ok a, p.1)
          | err e ↦ (err (f e), p.1)
        ]).1
          ≡ p.1
    from (ok a, u) = refl
    from (err e, u) = refl

-- The service has handled some number of attempts.
abbrev pub Sent : Site → Wire → Request → Link → Link → Type 0
Sent site wire r l l' = (n : ℕ) × (l'.store ≡ served site wire r n l.store)

Sent-IsOnce :
    (site : Site) (wire : Wire) (r : Request) (l l' : Link)
    → has_key r ≡ true
    → Sent site wire r l l'
    → IsOnce site r l.store l'.store
Sent-IsOnce site wire r l l' keyed (n, e) =
    subst (IsOnce site r l.store) (sym e) (served-IsOnce site wire r keyed n l.store)

module _ (site : Site) (wire : Wire) (r : Request) where
  post-Sent :
      (policy : CallPolicy) (route key : String) (l : Link)
      → Sent site wire r l (post site wire policy route key r l).1
  unfolding post
  post-Sent policy route key l =
      (length (post site wire policy route key r l).1.net.sent - length l.net.sent, refl)

  translated-Sent :
      {B : Type 0} (g : CallError → RemoteError) (policy : CallPolicy) (route key : String)
      (f : Json → Action RemoteError Link B) (l : Link)
      → ((a : Json) (u : Link) → (f a u).1 ≡ u)
      → Sent site wire r l ((translate g (post site wire policy route key r) >>= f) l).1
  translated-Sent g policy route key f l h =
      subst (λ (x : Link). Sent site wire r l x)
        (sym (
          bind_reads (translate g (post site wire policy route key r)) f l h
          ∙ translate_state g (post site wire policy route key r) l))
        (post-Sent policy route key l)

  checked-Sent :
      {B : Type 0} (b : Bool) (x : RemoteError) (m : Action RemoteError Link B) (l : Link)
      → Sent site wire r l (m l).1
      → Sent site wire r l ((raise_if b x >> m) l).1
  unfolding served
  checked-Sent true x m l h = (0, refl)
  checked-Sent false x m l h = h

-- The request that an adjustment sends.
abbrev pub adjustment : Site → ℕ → ℤ → String → String → Option ℕ → Request
adjustment site v d reason order_no order_id =
    adjust_one v d reason order_no order_id
      (some (adjustment_key site (adjust_request v d reason order_no order_id)))

module _ (site : Site) (wire : Wire) (l : Link) where
  reserve_lines-Sent :
      (c : String) (lines : List Line) (session_key : String) (ttl : Option ℕ)
      → Sent site wire
          (reserve c lines session_key ttl (some c))
          l
          (reserve_lines site wire c lines session_key ttl l).1
  unfolding reserve_lines
  reserve_lines-Sent c lines session_key ttl =
      let r = reserve c lines session_key ttl (some c) in
      let rest = λ (a : Json). or_raise (stock value_error) (reserved_rows (site.decode a)) in
      let sent =
        translate reserve_error (post site wire write_policy "/v1/reservations" c r) >>= rest in
      checked-Sent site wire r (str_eq c "") (stock value_error)
        (raise_if (is_empty lines || not (all_positive lines)) (stock value_error) >> sent) l
        (checked-Sent site wire r (is_empty lines || not (all_positive lines)) (stock value_error)
          sent l
          (translated-Sent site wire r reserve_error write_policy "/v1/reservations" c rest l
            (λ a u. or_raise_reads (stock value_error) (reserved_rows (site.decode a)) u)))

  commit_holds-Sent :
      (c order_no : String) (order_id : Option ℕ) (inside : Bool)
      → Sent site wire
          (commit c order_no order_id (some (str_append c ":commit")))
          l
          (commit_holds site wire c order_no order_id inside l).1
  unfolding commit_holds
  commit_holds-Sent c order_no order_id inside =
      let count =
        λ (rows : List ReservationOut). pure {E = RemoteError} {S = Link} (tally_rows rows []) in
      let rest =
        λ (a : Json). or_raise (stock value_error) (committed_rows (site.decode a)) >>= count in
      translated-Sent site wire (commit c order_no order_id (some (str_append c ":commit")))
        unavailable_error (if inside then in_txn_write_policy else write_policy)
        (str_append "/v1/reservations/" (str_append c "/commit")) (str_append c ":commit") rest l
        (λ a u.
          bind_reads (or_raise (stock value_error) (committed_rows (site.decode a))) count u
            (λ _ _. refl)
          ∙ or_raise_reads (stock value_error) (committed_rows (site.decode a)) u)

  release_holds-Sent :
      (c : String)
      → Sent site wire
          (release c (some (str_append c ":release")))
          l
          (release_holds site wire c l).1
  unfolding release_holds
  release_holds-Sent c =
      translated-Sent site wire (release c (some (str_append c ":release"))) unavailable_error
        write_policy (str_append "/v1/reservations/" (str_append c "/release"))
        (str_append c ":release")
        (λ a. or_raise (stock value_error) (released_count (site.decode a))) l
        (λ a u. or_raise_reads (stock value_error) (released_count (site.decode a)) u)

  pub adjust_stock-Sent :
      (v : ℕ) (d : ℤ) (reason order_no : String) (order_id : Option ℕ)
      → Sent site wire
          (adjustment site v d reason order_no order_id)
          l
          (adjust_stock site wire v (Value.int d) reason order_no order_id l).1
  unfolding adjust_stock
  adjust_stock-Sent v d reason order_no order_id =
      let r = adjustment site v d reason order_no order_id in
      let key = adjustment_key site (adjust_request v d reason order_no order_id) in
      let rest = λ (a : Json). or_raise (stock value_error) (adjusted_counters (site.decode a)) in
      let sent =
        translate adjust_error (post site wire write_policy "/v1/stock/adjustments" key r)
        >>= rest in
      checked-Sent site wire r (is_zero d) (stock invalid_stock_adjustment) sent l (
        translated-Sent site wire r adjust_error write_policy "/v1/stock/adjustments" key rest l
          (λ a u. or_raise_reads (stock value_error) (adjusted_counters (site.decode a)) u))

  -- Whichever of the at most three attempts of an operation reach the service, and whichever of its
  -- answers are lost, late or cut off, and whether the operation returns or raises: the ledger is as
  -- before it, or as one single answered handling of its request leaves it. No retry reserves, sells,
  -- releases or adjusts twice. No other client writes between the attempts.
  pub operations-IsOnce :
      (c : String) (lines : List Line) (session_key : String) (ttl : Option ℕ) (order_no : String)
      (order_id : Option ℕ) (inside : Bool) (v : ℕ) (d : ℤ) (reason : String)
      → IsOnce site
          (reserve c lines session_key ttl (some c))
          l.store
          (reserve_lines site wire c lines session_key ttl l).1.store
        × IsOnce site
            (commit c order_no order_id (some (str_append c ":commit")))
            l.store
            (commit_holds site wire c order_no order_id inside l).1.store
        × IsOnce site
            (release c (some (str_append c ":release")))
            l.store
            (release_holds site wire c l).1.store
        × IsOnce site
            (adjustment site v d reason order_no order_id)
            l.store
            (adjust_stock site wire v (Value.int d) reason order_no order_id l).1.store
  operations-IsOnce c lines session_key ttl order_no order_id inside v d reason = (
    Sent-IsOnce site wire (reserve c lines session_key ttl (some c)) l
        (reserve_lines site wire c lines session_key ttl l).1 refl
        (reserve_lines-Sent c lines session_key ttl),
    Sent-IsOnce site wire (commit c order_no order_id (some (str_append c ":commit"))) l
        (commit_holds site wire c order_no order_id inside l).1 refl
        (commit_holds-Sent c order_no order_id inside),
    Sent-IsOnce site wire (release c (some (str_append c ":release"))) l
        (release_holds site wire c l).1 refl (release_holds-Sent c),
    Sent-IsOnce site wire (adjustment site v d reason order_no order_id) l
        (adjust_stock site wire v (Value.int d) reason order_no order_id l).1 refl
        (adjust_stock-Sent v d reason order_no order_id),
  )
