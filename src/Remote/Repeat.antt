-- ===== src/Remote/Repeat.antt =====
-- apps/inventory/providers/service.py: `adjust_stock`, called again with the arguments of an adjustment
-- that is done.
use tip_metro_drip_ecommerce.Base.{
  ℕ, zero, suc, ◌-◌, ◌≡◌, ◌≢◌, refl, sym, ap, ◌∙◌, subst, ℤ, String, str_append, true, false,
  Option, some, List, ◌++◌, length, length-append, ltb, Value, arith,
}
use tip_metro_drip_ecommerce.Base.Action.{Result, ok, err, Action, or_raise, ◌>>=◌}
use tip_metro_drip_ecommerce.Base.Invert.{bind_inv, raise_if_inv, returned_state}
use tip_metro_drip_ecommerce.Inventory.Provider.{value_error, invalid_stock_adjustment}
use tip_metro_drip_ecommerce.Inventory.Adjust.{is_zero}
use tip_metro_drip_ecommerce.Http.{
  Json, Outcome, answered, CallError, CallPolicy, Headers, Net, call,
}
use tip_metro_drip_ecommerce.Http as Http
use tip_metro_drip_ecommerce.Http.Attempts.{copies, headers_of}
use tip_metro_drip_ecommerce.Http.Returned.{IsAnswered, call-Returned}
use tip_metro_drip_ecommerce.Service.{HttpError, Store, Response, Env, adjust_request}
use tip_metro_drip_ecommerce.Service.History.{Request, handle, serve_all}
use tip_metro_drip_ecommerce.Remote.{
  Delivery, lost, heard, unheard, cut, Wire, Site, Link, RemoteError, stock, error_status,
  http_response, server, after_delivery, served, outcome_of, world, post, write_policy,
  adjust_error, translate,
}
use tip_metro_drip_ecommerce.Remote.Provider.{
  Counters, adjust_stock, adjustment_key, adjusted_counters,
}
use tip_metro_drip_ecommerce.Remote.Once.{IsDone, now-IsDone, later-IsDone, served_done}
use tip_metro_drip_ecommerce.Remote.Operations.{or_raise_reads, adjustment, adjust_stock-Sent}

length-copies : (n : ℕ) (h : Headers) → length (copies n h) ≡ n
length-copies zero h = refl
length-copies (suc n) h = ap suc (length-copies n h)

length-append_copies :
    (hs : List Headers) (n : ℕ) (h : Headers) → length (hs ++ copies n h) - length hs ≡ n
length-append_copies hs n h = omega (arith, length-append hs (copies n h), length-copies n h)

error_is_refused : (e : HttpError) → ltb (error_status e) 400 ≡ false
error_is_refused HttpError.idempotency_key_required = refl
error_is_refused HttpError.in_progress = refl
error_is_refused HttpError.idempotency_key_reuse = refl
error_is_refused HttpError.unknown_variant = refl
error_is_refused HttpError.insufficient_stock = refl
error_is_refused HttpError.counters_cannot_cover_sale = refl
error_is_refused HttpError.reserved_underflow = refl
error_is_refused HttpError.invalid_delta = refl
error_is_refused HttpError.invalid_reason = refl
error_is_refused HttpError.would_break_reserved_invariant = refl
error_is_refused HttpError.unprocessable = refl
error_is_refused HttpError.server_error = refl

true_apart : true ≢ false
true_apart e = cc

answered_inj : {x y : Http.Response} → answered x ≡ answered y → x ≡ y
answered_inj e = cc

module _ (site : Site) (wire : Wire) (r : Request) where
  -- An attempt that was answered below 400 is one that the service handled and answered.
  answered-IsDone :
      (n : ℕ) (s : Store)
      → IsAnswered (world site wire r s) (suc n)
      → IsDone site r (served site wire r (suc n) s)
  unfolding served
  answered-IsDone n s (answer, at, below) = from (wire.delivery (suc n)) at
    where
      now : ℕ
      now = wire.now (suc n)

      before : Store
      before = served site wire r n s

      handled : Result HttpError Response × Store
      handled = handle (server site now) r before

      with_state : Result HttpError Response → Result HttpError Response × Store
      with_state x = (x, handled.1)

      inner :
          (p : Result HttpError Response)
          → handled.0 ≡ p
          → http_response site p ≡ answer
          → IsDone site r handled.1
      inner (ok a) e q = now-IsDone site r now before a handled.1 (ap with_state e)
      inner (err x) e q = absurd (
          true_apart (
            sym (subst (λ (y : Http.Response). ltb y.status_code 400 ≡ true) (sym q) below)
            ∙ error_is_refused x))

      from :
          (d : Delivery)
          → outcome_of site handled.0 d ≡ answered answer
          → IsDone site r (after_delivery before handled d)
      from lost q = absurd cc
      from heard q = inner handled.0 refl (answered_inj q)
      from unheard q = absurd cc
      from cut q = absurd cc

  post-IsDone :
      (policy : CallPolicy) (route key : String) (l l' : Link) {j : Json}
      → post site wire policy route key r l ≡ (ok j, l')
      → IsDone site r l'.store
  unfolding post
  post-IsDone policy route key l l' {j} e =
      from
        (call (world site wire r l.store) policy (str_append site.base_url route) site.service_token
          wire.correlation_id (some key) l.net)
        refl e
    where
      from :
          (p : Result CallError Json × Net)
          → call
              (world site wire r l.store)
              policy
              (str_append site.base_url route)
              site.service_token
              wire.correlation_id
              (some key)
              l.net
            ≡ p
          → ◌≡◌ {A = Result CallError Json × Link}
              (
                p.0,
                record {
                  net = p.1;
                  store = served site wire r (length p.1.sent - length l.net.sent) l.store;
                },
              )
              (ok j, l')
          → IsDone site r l'.store
      from (err x, net) c q = absurd cc
      from (ok x, net) c q =
          let (k, sends, answer) =
            call-Returned (world site wire r l.store) policy (str_append site.base_url route)
              site.service_token wire.correlation_id (some key) l.net net c in
          subst (λ (m : Link). IsDone site r m.store) (returned_state q)
            (subst (λ n. IsDone site r (served site wire r n l.store))
              (sym (
                ap (λ x. length x - length l.net.sent) sends
                ∙ length-append_copies l.net.sent (suc k)
                    (headers_of site.service_token wire.correlation_id (some key))))
              (answered-IsDone k l.store answer))

translate_inv :
    {A : Type 0} (f : CallError → RemoteError) (m : Action CallError Link A) (l : Link) {a : A}
    {l' : Link}
    → translate f m l ≡ (ok a, l')
    → m l ≡ (ok a, l')
translate_inv {A} f m l {a} {l'} e = from (m l) e
  where
    from :
        (p : Result CallError A × Link)
        → ◌≡◌ {A = Result RemoteError A × Link}
            (elim p.0 as (λ _. Result RemoteError A × Link) [
              | ok x ↦ (ok x, p.1)
              | err x ↦ (err (f x), p.1)
            ])
            (ok a, l')
        → p ≡ (ok a, l')
    from (ok x, u) q = found q
      where
        found :
            ◌≡◌ {A = Result RemoteError A × Link} (ok x, u) (ok a, l')
            → ◌≡◌ {A = Result CallError A × Link} (ok x, u) (ok a, l')
        found q = cc
    from (err x, u) q = absurd cc

adjust_stock-IsDone :
    (site : Site) (wire : Wire) (v : ℕ) (d : ℤ) (reason order_no : String) (order_id : Option ℕ)
    (l : Link) {c : Counters} {l' : Link}
    → adjust_stock site wire v (Value.int d) reason order_no order_id l ≡ (ok c, l')
    → IsDone site (adjustment site v d reason order_no order_id) l'.store
unfolding adjust_stock
adjust_stock-IsDone site wire v d reason order_no order_id l {c} {l'} e =
    let r = adjustment site v d reason order_no order_id in
    let key = adjustment_key site (adjust_request v d reason order_no order_id) in
    let rest = λ (a : Json). or_raise (stock value_error) (adjusted_counters (site.decode a)) in
    let send = post site wire write_policy "/v1/stock/adjustments" key r in
    let (_, e₁) =
      raise_if_inv (is_zero d) (stock invalid_stock_adjustment)
        (translate adjust_error send >>= rest) l e in
    let (a, u, e₂, e₃) = bind_inv (translate adjust_error send) rest l e₁ in
    subst (λ (m : Link). IsDone site r m.store)
      (sym (or_raise_reads (stock value_error) (adjusted_counters (site.decode a)) u)
        ∙ ap (λ (p : Result RemoteError Counters × Link). p.1) e₃)
      (post-IsDone site wire r write_policy "/v1/stock/adjustments" key l u
        (translate_inv adjust_error send l e₂))

-- An adjustment of stock that returned, and is made a second time with the same arguments, whenever,
-- over whatever wire and after whatever other requests to the service: whether the second call returns
-- or raises, it leaves the ledger as it is.
pub adjust_stock_again :
    (site : Site) (wire wire' : Wire) (v : ℕ) (d : ℤ) (reason order_no : String)
    (order_id : Option ℕ) (between : List (Env × Request)) (l : Link) {c : Counters} {l' : Link}
    → adjust_stock site wire v (Value.int d) reason order_no order_id l ≡ (ok c, l')
    → (adjust_stock site wire' v
        (Value.int d)
        reason
        order_no
        order_id
        (record l' { store = serve_all between l'.store })).1.store
      ≡ serve_all between l'.store
adjust_stock_again site wire wire' v d reason order_no order_id between l {c} {l'} e =
    let r = adjustment site v d reason order_no order_id in
    let then_ : Link = record l' { store = serve_all between l'.store } in
    let (n, second) = adjust_stock-Sent site wire' then_ v d reason order_no order_id in
    second
    ∙ served_done site wire' r refl n then_.store (
        later-IsDone site r between l'.store
          (adjust_stock-IsDone site wire v d reason order_no order_id l e))
