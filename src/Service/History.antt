-- ===== src/Service/History.antt =====
-- services/inventory/api.py: every mutating route, and histories of requests. A request is one
-- transaction that locks the rows it reads, so that concurrent requests are some sequence of them.
use tip_metro_drip_ecommerce.Base.{
  ℕ, ◌+◌, ◌*◌, ℤ, String, str_eq, str_append, true, false, not, ◌||◌, Option, none, some, List, [],
  ◌∷◌, length, arith,
}
use tip_metro_drip_ecommerce.Base.Action.{Result, ok, err, Action, pure, gets, ◌>>=◌}
use tip_metro_drip_ecommerce.Base.Keeps.{Keeps, bind-Keeps, raise_if-Keeps}
use tip_metro_drip_ecommerce.Inventory.{Ledger}
use tip_metro_drip_ecommerce.Inventory.Provider.{Line, sorted}
use tip_metro_drip_ecommerce.Inventory.Reserve.{is_empty}
use tip_metro_drip_ecommerce.Service.{
  Body, reserve_response, commit_response, release_response, sweep_response, Payload,
  reserve_request, commit_request, release_request, adjust_request, Claim, HttpError,
  idempotency_key_required, unprocessable, Stop, http, replay, Store, Response, Env, Block,
  on_tables, find_claim, hash_key, fingerprint, claim, insert_or_resolve, resolve_existing, finish,
  work_under, guarded, respond,
}
use tip_metro_drip_ecommerce.Service.Reservations.{
  Work, outs, key_or, reserve_block, commit_block, release_block, sweep_block, create_reservations,
  commit_reservations, release_reservations, expire_reservations, place_each, sell_group,
  release_group, sweep, all_positive, ttl_or_default,
}
use tip_metro_drip_ecommerce.Service.Adjustments.{
  or_empty, adjusted, adjust_block, adjust, adjust_stock,
}
use tip_metro_drip_ecommerce.Service.Well.{place_each-Keeps}
use tip_metro_drip_ecommerce.Service.Kept.{
  IsWell, IsWell-IsStable, sell_group-IsWell, release_group-IsWell, sweep-IsWell, adjust-IsWell,
}

pub data Request : Type 0 where
  reserve : String → List Line → String → Option ℕ → Option String → Request
  commit : String → String → Option ℕ → Option String → Request
  release : String → Option String → Request
  adjust_one : ℕ → ℤ → String → String → Option ℕ → Option String → Request
  expire : Request

unfoldable pub handle : Env → Request → Action HttpError Store Response
handle env (reserve c ls k ttl key) = create_reservations env c ls k ttl key
handle env (commit c label ref key) = commit_reservations env c label ref key
handle env (release c key) = release_reservations env c key
handle env (adjust_one v d why label ref key) = adjust_stock env v d why label ref key
handle env expire = expire_reservations env

unfoldable pub serve_all : List (Env × Request) → Store → Store
unfolding handle
serve_all [] s = s
serve_all ((env, r) ∷ rs) s = serve_all rs (handle env r s).1

module _ (opening : ℕ → ℤ) where
  abbrev Well : Store → Type 0
  Well s = IsWell opening s.tables

  on_tables-Well : {A : Type 0} (m : Work A) → Keeps (IsWell opening) m → Keeps Well (on_tables m)
  on_tables-Well {A} m k s h = from (m s.tables) (k s.tables h)
    where
      from :
          (p : Result HttpError A × Ledger)
          → IsWell opening p.1
          → Well
              (elim p.0 as (λ _. Result Stop A × Store) [
                | ok a ↦ (ok a, record s { tables = p.1 })
                | err e ↦ (err (http e), record s { tables = p.1 })
              ]).1
      from (ok a, t) q = q
      from (err e, t) q = q

  resolve_existing-Well : (c : Claim) (print : String) → Keeps Well (resolve_existing c print)
  unfolding resolve_existing
  resolve_existing-Well c print s h = ground arith

  insert_or_resolve-Well :
      (key_hash print : String) (o : Option Claim) → Keeps Well (insert_or_resolve key_hash print o)
  unfolding insert_or_resolve
  insert_or_resolve-Well key_hash print none s h = h
  insert_or_resolve-Well key_hash print (some c) s h =
      bind-Keeps Well (resolve_existing c print) (λ _. pure key_hash)
        (resolve_existing-Well c print) (λ _ _ q. q) s h

  claim-Well :
      (env : Env) (route key : String) (payload : Payload)
      → Keeps Well (claim env route key payload)
  unfolding claim
  claim-Well env route key payload =
      raise_if-Keeps Well (str_eq key "") (http idempotency_key_required)
        (gets (λ s. find_claim (hash_key env route key) s.claims)
          >>= insert_or_resolve (hash_key env route key) (fingerprint env payload))
        (λ s h.
          insert_or_resolve-Well (hash_key env route key) (fingerprint env payload)
            (find_claim (hash_key env route key) s.claims) s h)

  guarded-Well :
      {A : Type 0} (env : Env) (route key : String) (payload : Payload) (code : ℕ) (work : Work A)
      (answer : A → Body)
      → Keeps (IsWell opening) work
      → Keeps Well (guarded env route key payload code work answer)
  unfolding guarded work_under finish
  guarded-Well env route key payload code work answer k =
      bind-Keeps Well (claim env route key payload) (work_under code work answer)
        (claim-Well env route key payload)
        (λ key_hash.
          bind-Keeps Well (on_tables work) (finish code answer key_hash) (on_tables-Well work k)
            (λ a s h. h))

  respond-Well : (code : ℕ → ℕ) (m : Block Response) → Keeps Well m → Keeps Well (respond code m)
  unfolding respond
  respond-Well code m k s h = from (m s) (k s h)
    where
      from :
          (p : Result Stop Response × Store)
          → Well p.1
          → Well
              (elim p.0 as (λ _. Result HttpError Response × Store) [
                | ok r ↦ (ok r, p.1)
                | err x ↦ elim x [
                  | http e ↦ (err e, s)
                  | replay stored body ↦
                      (ok (record { status_code = code stored; replayed = true; body = body }), s)
                ]
              ]).1
      from (ok r, t) q = q
      from (err (http e), t) q = h
      from (err (replay stored body), t) q = h

  reserve_block-Well :
      (env : Env) (c : String) (ls : List Line) (k : String) (ttl : Option ℕ) (key : Option String)
      → Keeps Well (reserve_block env c ls k ttl key)
  unfolding reserve_block
  reserve_block-Well env c ls k ttl key =
      let expires_at = env.now + ttl_or_default ttl * 60 in
      guarded-Well env "/v1/reservations" (key_or key c) (reserve_request c ls k ttl) 201
        (place_each k c expires_at (sorted ls)) (λ rows. reserve_response c (outs rows) expires_at)
        (place_each-Keeps (IsWell-IsStable opening) env.now k c expires_at (sorted ls))

  commit_block-Well :
      (env : Env) (c label : String) (ref : Option ℕ) (key : Option String)
      → Keeps Well (commit_block env c label ref key)
  unfolding commit_block
  commit_block-Well env c label ref key =
      guarded-Well env "/v1/reservations/{checkout_id}/commit" (key_or key (str_append c ":commit"))
        (commit_request label ref) 200 (sell_group env.now ref c)
        (λ rows. commit_response c (length rows) (outs rows))
        (sell_group-IsWell opening env.now ref c)

  release_block-Well :
      (env : Env) (c : String) (key : Option String) → Keeps Well (release_block env c key)
  unfolding release_block
  release_block-Well env c key =
      guarded-Well env "/v1/reservations/{checkout_id}/release"
        (key_or key (str_append c ":release")) release_request 200 (release_group env.now c)
        (release_response c) (release_group-IsWell opening env.now c)

  adjust_block-Well :
      (env : Env) (v : ℕ) (d : ℤ) (why label : String) (ref : Option ℕ) (key : Option String)
      → Keeps Well (adjust_block env v d why label ref key)
  unfolding adjust_block
  adjust_block-Well env v d why label ref key =
      guarded-Well env "/v1/stock/adjustments" (or_empty key) (adjust_request v d why label ref) 200
        (adjust v d why ref) (adjusted v) (adjust-IsWell opening v d why ref)

  sweep_block-Well : (env : Env) → Keeps Well (sweep_block env)
  unfolding sweep_block
  sweep_block-Well env =
      bind-Keeps Well (on_tables (sweep env.now))
        (λ n. pure (record { status_code = 200; replayed = false; body = sweep_response n }))
        (on_tables-Well (sweep env.now) (sweep-IsWell opening env.now)) (λ n s h. h)

  handle-Well : (env : Env) (r : Request) → Keeps Well (handle env r)
  unfolding handle create_reservations commit_reservations release_reservations adjust_stock
      expire_reservations
  handle-Well env (reserve c ls k ttl key) =
      raise_if-Keeps Well (is_empty ls || not (all_positive ls)) unprocessable
        (respond (λ stored. stored) (reserve_block env c ls k ttl key))
        (respond-Well (λ stored. stored) (reserve_block env c ls k ttl key)
          (reserve_block-Well env c ls k ttl key))
  handle-Well env (commit c label ref key) =
      respond-Well (λ _. 200) (commit_block env c label ref key)
        (commit_block-Well env c label ref key)
  handle-Well env (release c key) =
      respond-Well (λ _. 200) (release_block env c key) (release_block-Well env c key)
  handle-Well env (adjust_one v d why label ref key) =
      respond-Well (λ _. 200) (adjust_block env v d why label ref key)
        (adjust_block-Well env v d why label ref key)
  handle-Well env expire = respond-Well (λ _. 200) (sweep_block env) (sweep_block-Well env)

  -- Whatever requests the inventory service answers, in whatever order, with whatever keys and
  -- whether it answers with an error or not: if the tables are sound and keyed before, then for every
  -- SKU `qty_reserved` is the sum of its active holds and at most `qty_on_hand`, which is the opening
  -- count plus the sum of the SKU's movements, and every reservation is the one that its key finds.
  pub serve_all-IsWell :
      (rs : List (Env × Request)) (s : Store)
      → IsWell opening s.tables
      → IsWell opening (serve_all rs s).tables
  unfolding serve_all
  serve_all-IsWell [] s h = h
  serve_all-IsWell ((env, r) ∷ rs) s h =
      serve_all-IsWell rs (handle env r s).1 (handle-Well env r s h)
