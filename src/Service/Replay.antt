-- ===== src/Service/Replay.antt =====
-- services/inventory/idempotency.py: a request that is sent again is answered with the stored body.
use tip_metro_drip_ecommerce.Base.{
  ℕ, ◌+◌, ◌*◌, ◌≡◌, ◌≢◌, refl, sym, ap, ◌∙◌, subst, String, str_append, str_eq, Bool, true, false,
  not, ◌||◌, Option, none, some, List, [], ◌∷◌, ◌++◌, length, ◌==◌, inl, inr,
}
use tip_metro_drip_ecommerce.Base.Action.{Result, ok, err, gets, ◌>>=◌, ◌>>◌, raise_if}
use tip_metro_drip_ecommerce.Base.Invert.{
  bind_err, bind_inv, bind_err_inv, raise_if_inv, returned_value, returned_state,
}
use text.Mathlib.TextPositions.{eq_refl}
use tip_metro_drip_ecommerce.Inventory.{Reservation}
use tip_metro_drip_ecommerce.Inventory.Provider.{sorted}
use tip_metro_drip_ecommerce.Inventory.Reserve.{is_empty}
use tip_metro_drip_ecommerce.Service.{
  Body, reserve_response, commit_response, release_response, Payload, reserve_request,
  commit_request, release_request, adjust_request, Claim, HttpError, idempotency_key_required,
  unprocessable, Stop, http, replay, Store, Response, Env, Block, on_tables, find_claim, fill_claim,
  new_claim, hash_key, fingerprint, claim, insert_or_resolve, finish, work_under, guarded, respond,
}
use tip_metro_drip_ecommerce.Service.Reservations.{
  Work, outs, key_or, reserve_block, commit_block, release_block, create_reservations,
  commit_reservations, release_reservations, place_each, sell_group, release_group, all_positive,
  ttl_or_default,
}
use tip_metro_drip_ecommerce.Service.Adjustments.{
  or_empty, adjusted, adjust_block, adjust, adjust_stock,
}
use tip_metro_drip_ecommerce.Service.History.{
  Request, reserve, commit, release, adjust_one, expire, handle, serve_all,
}
use tip_metro_drip_ecommerce.Service.Lasting.{serve_all-Holds}
use tip_metro_drip_ecommerce.Service.Claims.{
  IsAnswered, filled, find_claim-append, find_claim-fill_claim, insert_or_resolve_inv,
  insert_or_resolve_replay, insert_or_resolve_again, respond_stored, on_tables_claims,
  on_tables_never_replays,
}

module _ (env : Env) (route key : String) (payload : Payload) where
  abbrev h : String
  h = hash_key env route key

  abbrev print : String
  print = fingerprint env payload

  abbrev look : Block String
  look = gets (λ s. find_claim h s.claims) >>= insert_or_resolve h print

  -- A key was sent, and its claim is answered.
  abbrev Settled : Body → Store → Type 0
  Settled body s = (str_eq key "" ≡ false) × IsAnswered h print body s

  -- It stays so, whatever requests follow.
  serve_all-Settled :
      (between : List (Env × Request)) (s : Store) {body : Body}
      → Settled body s
      → Settled body (serve_all between s)
  serve_all-Settled between s (named, (c, at, same, done, stored)) =
      (named, (c, serve_all-Holds h c between s at, same, done, stored))

  claim_inv :
      (s : Store) {k : String} {t : Store}
      → claim env route key payload s ≡ (ok k, t)
      → (str_eq key "" ≡ false)
        × (find_claim h s.claims ≡ none)
        × (k ≡ h)
        × (t ≡ record s { claims = s.claims ++ new_claim h print ∷ [] })
  unfolding claim
  claim_inv s e =
      let (named, e₁) = raise_if_inv (str_eq key "") (http idempotency_key_required) look s e in
      let (free, same, written) = insert_or_resolve_inv h print (find_claim h s.claims) s e₁ in
      (named, free, same, written)

  claim_replay_inv :
      (s : Store) {code : ℕ} {body : Body} {t : Store}
      → claim env route key payload s ≡ (err (replay code body), t)
      → Settled body s
  unfolding claim
  claim_replay_inv s {code} {body} {t} e = from (str_eq key "") refl e
    where
      from :
          (b : Bool)
          → str_eq key "" ≡ b
          → (raise_if b (http idempotency_key_required) >> look) s ≡ (err (replay code body), t)
          → Settled body s
      from true b q = cc
      from false b q =
          let (c, at, same, done, stored) =
            insert_or_resolve_replay h print (find_claim h s.claims) s q in
          (b, (c, at, same, done, stored))

  claim_again :
      (s : Store) {body : Body}
      → Settled body s
      → (code : ℕ) × (claim env route key payload s ≡ (err (replay code body), s))
  unfolding claim
  claim_again s {body} (named, (c, at, same, done, stored)) = (
    c.status_code,
    rw named (
        ap (λ (o : Option Claim). insert_or_resolve h print o s) at
        ∙ (insert_or_resolve_again h print c s same done
            ∙ ap (λ (b : Body). (err (replay c.status_code b), s)) stored)),
  )

  module _ {A : Type 0} (code : ℕ) (work : Work A) (answer : A → Body) where
    guarded_inv :
        (s : Store) {a : Response} {t : Store}
        → (code == 0) ≡ false
        → guarded env route key payload code work answer s ≡ (ok a, t)
        → Settled a.body t
    unfolding guarded work_under finish
    guarded_inv s {a} {t} positive e =
        let (k, u, claimed, e₁) =
          bind_inv (claim env route key payload) (work_under code work answer) s e in
        let (named, free, same, written) = claim_inv s claimed in
        let (x, v, worked, e₂) = bind_inv (on_tables work) (finish code answer k) u e₁ in
        let kept : v.claims ≡ s.claims ++ new_claim h print ∷ [] =
          on_tables_claims work u worked ∙ ap (λ (q : Store). q.claims) written in
        let here : find_claim h (fill_claim h code (answer x) v.claims)
            ≡ some (filled code (answer x) (new_claim h print)) =
          find_claim-fill_claim h code (answer x) v.claims
            (ap (find_claim h) kept ∙ find_claim-append h (new_claim h print) s.claims free refl) in
        let stored : t.claims ≡ fill_claim h code (answer x) v.claims =
          ap (λ (q : Store). q.claims) (sym (returned_state e₂))
          ∙ ap (λ (j : String). fill_claim j code (answer x) v.claims) same in
        (
          named,
          (
            filled code (answer x) (new_claim h print),
            ap (find_claim h) stored ∙ here,
            eq_refl print,
            positive,
            ap (λ (r : Response). r.body) (returned_value e₂),
          ),
        )

    guarded_replay_inv :
        (s : Store) {stored : ℕ} {body : Body} {t : Store}
        → guarded env route key payload code work answer s ≡ (err (replay stored body), t)
        → Settled body s
    unfolding guarded work_under finish
    guarded_replay_inv s {stored} {body} {t} e =
        elim (bind_err_inv (claim env route key payload) (work_under code work answer) s e) [
          | inl claimed ↦ claim_replay_inv s claimed
          | inr (k, u, claimed, e₁) ↦
              elim (bind_err_inv (on_tables work) (finish code answer k) u e₁) [
                | inl worked ↦ absurd (on_tables_never_replays work u worked)
                | inr (x, v, worked, e₂) ↦ absurd (apart e₂)
              ]
        ]
      where
        apart :
            {r : Response} {v : Store}
            → ◌≢◌ {A = Result Stop Response × Store} (ok r, v) (err (replay stored body), t)
        apart q = cc

    guarded_again :
        (s : Store) {body : Body}
        → Settled body s
        → (stored : ℕ) × (guarded env route key payload code work answer s
            ≡ (err (replay stored body), s))
    unfolding guarded
    guarded_again s settled =
        let (stored, e) = claim_again s settled in
        (stored, bind_err (claim env route key payload) (work_under code work answer) s e)

    -- Whatever a guarded request was answered, with its own answer or with a stored one, the claim of
    -- its key is settled with that body.
    respond_settles :
        (sent : ℕ → ℕ) (s : Store) {a : Response} {t : Store}
        → (code == 0) ≡ false
        → respond sent (guarded env route key payload code work answer) s ≡ (ok a, t)
        → Settled a.body t
    unfolding respond
    respond_settles sent s {a} {t} positive e =
        from (guarded env route key payload code work answer s) refl e
      where
        from :
            (p : Result Stop Response × Store)
            → guarded env route key payload code work answer s ≡ p
            → ◌≡◌ {A = Result HttpError Response × Store}
                (elim p.0 as (λ _. Result HttpError Response × Store) [
                  | ok r ↦ (ok r, p.1)
                  | err x ↦ elim x [
                    | http e ↦ (err e, s)
                    | replay stored body ↦
                        (ok (record { status_code = sent stored; replayed = true; body = body }), s)
                  ]
                ])
                (ok a, t)
            → Settled a.body t
        from (ok r, u) at q = subst (Settled a.body) (returned_state q) (
            subst (λ (x : Response). Settled x.body u) (returned_value q)
              (guarded_inv s positive at))
        from (err (http x), u) at q = cc
        from (err (replay stored body), u) at q = subst (Settled a.body) (returned_state q) (
            subst (λ (x : Response). Settled x.body s) (returned_value q) (guarded_replay_inv s at))

    respond_again :
        (sent : ℕ → ℕ) (s : Store) {body : Body}
        → Settled body s
        → (stored : ℕ) × (respond sent (guarded env route key payload code work answer) s
            ≡ (ok (record { status_code = stored; replayed = true; body = body }), s))
    respond_again sent s settled =
        let (stored, e) = guarded_again s settled in
        (sent stored, respond_stored sent (guarded env route key payload code work answer) s e)

abbrev pub has_key : Request → Bool
has_key (reserve c ls k ttl key) = true
has_key (commit c label ref key) = true
has_key (release c key) = true
has_key (adjust_one v d why label ref key) = true
has_key expire = false

-- A request that was answered without an error and is sent again, at any later time and after whatever
-- other requests: it is answered with the body of the first answer, marked as a replay, and neither the
-- tables nor the claims change, so that no stock is reserved, sold, released or adjusted twice. The
-- sweep has no key and is left out.
pub handle_again :
    (env : Env) (later : ℕ) (r : Request) (between : List (Env × Request)) (s : Store)
    {a : Response} {t : Store}
    → has_key r ≡ true
    → handle env r s ≡ (ok a, t)
    → (code : ℕ) × (handle (record env { now = later }) r (serve_all between t)
        ≡ (ok (record { status_code = code; replayed = true; body = a.body }), serve_all between t))
unfolding handle create_reservations commit_reservations release_reservations adjust_stock
    reserve_block commit_block release_block adjust_block hash_key fingerprint
handle_again env later (reserve c ls k ttl key) between s {a} {t} keyed e =
    let payload = reserve_request c ls k ttl in
    let work = λ (n : ℕ). place_each k c (n + ttl_or_default ttl * 60) (sorted ls) in
    let answer = λ (n : ℕ) (rows : List Reservation).
      reserve_response c (outs rows) (n + ttl_or_default ttl * 60) in
    let (checked, e₁) =
      raise_if_inv (is_empty ls || not (all_positive ls)) unprocessable
        (respond (λ stored. stored) (reserve_block env c ls k ttl key)) s e in
    let settled =
      respond_settles env "/v1/reservations" (key_or key c) payload 201 (work env.now)
        (answer env.now) (λ stored. stored) s refl e₁ in
    let (code, again) =
      respond_again (record env { now = later }) "/v1/reservations" (key_or key c) payload 201
        (work later) (answer later) (λ stored. stored) (serve_all between t)
        (serve_all-Settled env "/v1/reservations" (key_or key c) payload between t settled) in
    (code, rw checked again)
handle_again env later (commit c label ref key) between s {a} {t} keyed e =
    let name = key_or key (str_append c ":commit") in
    let answer = λ (rows : List Reservation). commit_response c (length rows) (outs rows) in
    let settled =
      respond_settles env "/v1/reservations/{checkout_id}/commit" name (commit_request label ref)
        200 (sell_group env.now ref c) answer (λ _. 200) s refl e in
    respond_again (record env { now = later }) "/v1/reservations/{checkout_id}/commit" name
      (commit_request label ref) 200 (sell_group later ref c) answer (λ _. 200)
      (serve_all between t)
      (serve_all-Settled env "/v1/reservations/{checkout_id}/commit" name (commit_request label ref)
        between t settled)
handle_again env later (release c key) between s {a} {t} keyed e =
    let name = key_or key (str_append c ":release") in
    let settled =
      respond_settles env "/v1/reservations/{checkout_id}/release" name release_request 200
        (release_group env.now c) (release_response c) (λ _. 200) s refl e in
    respond_again (record env { now = later }) "/v1/reservations/{checkout_id}/release" name
      release_request 200 (release_group later c) (release_response c) (λ _. 200)
      (serve_all between t)
      (serve_all-Settled env "/v1/reservations/{checkout_id}/release" name release_request between t
        settled)
handle_again env later (adjust_one v d why label ref key) between s {a} {t} keyed e =
    let payload = adjust_request v d why label ref in
    let settled =
      respond_settles env "/v1/stock/adjustments" (or_empty key) payload 200 (adjust v d why ref)
        (adjusted v) (λ _. 200) s refl e in
    respond_again (record env { now = later }) "/v1/stock/adjustments" (or_empty key) payload 200
      (adjust v d why ref) (adjusted v) (λ _. 200) (serve_all between t)
      (serve_all-Settled env "/v1/stock/adjustments" (or_empty key) payload between t settled)
handle_again env later expire between s keyed e = cc
