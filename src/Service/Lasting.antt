-- ===== src/Service/Lasting.antt =====
-- services/inventory: the claim of a key, once it is there, is left as it is by every other request.
use tip_metro_drip_ecommerce.Base.{
  ℕ, ◌+◌, ◌*◌, ◌≡◌, refl, ap, ◌∙◌, String, str_append, str_eq, Bool, true, false, not, ◌||◌, Option,
  none, some, List, [], ◌∷◌, ◌++◌, length, if◌then◌else◌, Bool-cases, inl, inr, arith,
}
use tip_metro_drip_ecommerce.Base.Action.{Result, ok, err, pure, ◌>>=◌}
use tip_metro_drip_ecommerce.Base.Keeps.{Keeps, bind-Keeps, raise_if-Keeps}
use tip_metro_drip_ecommerce.Inventory.{Ledger}
use tip_metro_drip_ecommerce.Inventory.Provider.{sorted}
use tip_metro_drip_ecommerce.Inventory.Reserve.{is_empty}
use tip_metro_drip_ecommerce.Service.{
  Body, reserve_response, commit_response, release_response, sweep_response, Payload,
  reserve_request, commit_request, release_request, adjust_request, Claim, HttpError, unprocessable,
  Stop, http, replay, Store, Response, Env, Block, on_tables, find_claim, fill_claim, new_claim,
  hash_key, fingerprint, claim, insert_or_resolve, resolve_existing, finish, work_under, guarded,
  respond,
}
use tip_metro_drip_ecommerce.Service.Reservations.{
  Work, outs, key_or, reserve_block, commit_block, release_block, sweep_block, create_reservations,
  commit_reservations, release_reservations, expire_reservations, place_each, sell_group,
  release_group, sweep, all_positive, ttl_or_default,
}
use tip_metro_drip_ecommerce.Service.Adjustments.{
  or_empty, adjusted, adjust_block, adjust, adjust_stock,
}
use tip_metro_drip_ecommerce.Service.History.{
  Request, reserve, commit, release, adjust_one, expire, handle, serve_all,
}

find_claim-behind :
    (h : String) (x : Claim) (cs : List Claim) {c : Claim}
    → find_claim h cs ≡ some c
    → find_claim h (cs ++ x ∷ []) ≡ some c
find_claim-behind h x [] e = cc
find_claim-behind h x (y ∷ cs) {c} e =
    from (str_eq y.key_hash h) (find_claim-behind h x cs {c = c}) e
  where
    from :
        (b : Bool)
        → (find_claim h cs ≡ some c → find_claim h (cs ++ x ∷ []) ≡ some c)
        → (if b then some y else find_claim h cs) ≡ some c
        → (if b then some y else find_claim h (cs ++ x ∷ [])) ≡ some c
    from true next q = q
    from false next q = next q

-- The answer of a new claim goes to its row, which is the last.
fill_claim-behind :
    (h : String) (code : ℕ) (body : Body) (x : Claim) (cs : List Claim)
    → find_claim h cs ≡ none
    → (y : Claim) × (fill_claim h code body (cs ++ x ∷ []) ≡ cs ++ y ∷ [])
fill_claim-behind h code body x [] e = elim (Bool-cases (str_eq x.key_hash h)) [
  | inl here ↦ (record x { status_code = code; response_body = body }, rw here refl)
  | inr apart ↦ (x, rw apart refl)
]
fill_claim-behind h code body x (c ∷ cs) e = elim (Bool-cases (str_eq c.key_hash h)) [
  | inl here ↦ absurd (ground arith)
  | inr apart ↦
      let (y, q) = fill_claim-behind h code body x cs (ground arith) in
      (y, rw apart (ap (λ z. c ∷ z) q))
]

on_tables_leaves : {A : Type 0} (m : Work A) (s : Store) → (on_tables m s).1.claims ≡ s.claims
on_tables_leaves {A} m s = from (m s.tables)
  where
    from :
        (p : Result HttpError A × Ledger)
        → (elim p.0 as (λ _. Result Stop A × Store) [
          | ok a ↦ (ok a, record s { tables = p.1 })
          | err e ↦ (err (http e), record s { tables = p.1 })
        ]).1.claims
          ≡ s.claims
    from (ok a, t) = refl
    from (err e, t) = refl

module _ (kept : String) (c : Claim) where
  abbrev Holds : Store → Type 0
  Holds s = find_claim kept s.claims ≡ some c

  on_tables-Holds : {A : Type 0} (m : Work A) → Keeps Holds (on_tables m)
  on_tables-Holds m s h = ap (find_claim kept) (on_tables_leaves m s) ∙ h

  respond-Holds : (sent : ℕ → ℕ) (m : Block Response) → Keeps Holds m → Keeps Holds (respond sent m)
  unfolding respond
  respond-Holds sent m k s h = from (m s) (k s h)
    where
      from :
          (p : Result Stop Response × Store)
          → Holds p.1
          → Holds
              (elim p.0 as (λ _. Result HttpError Response × Store) [
                | ok r ↦ (ok r, p.1)
                | err x ↦ elim x [
                  | http e ↦ (err e, s)
                  | replay stored body ↦
                      (ok (record { status_code = sent stored; replayed = true; body = body }), s)
                ]
              ]).1
      from (ok r, t) q = q
      from (err (http e), t) q = h
      from (err (replay stored body), t) q = h

  module _ {A : Type 0} (env : Env) (route key : String) (payload : Payload) (code : ℕ)
      (work : Work A) (answer : A → Body) where
    abbrev name : String
    name = hash_key env route key

    abbrev print : String
    print = fingerprint env payload

    -- The work and its record, behind the claim of a key that was free.
    worked :
        (s : Store)
        → Holds s
        → find_claim name s.claims ≡ none
        → Holds
            (work_under code work answer name
              (record s { claims = s.claims ++ new_claim name print ∷ [] })).1
    unfolding work_under finish
    worked s h free = from (on_tables work t) (on_tables_leaves work t)
      where
        t : Store
        t = record s { claims = s.claims ++ new_claim name print ∷ [] }

        from :
            (p : Result Stop A × Store)
            → p.1.claims ≡ s.claims ++ new_claim name print ∷ []
            → Holds
                (elim p.0 as (λ _. Result Stop Response × Store) [
                  | ok a ↦ finish code answer name a p.1
                  | err e ↦ (err e, p.1)
                ]).1
        from (ok a, u) q =
            let (y, filled) =
              fill_claim-behind name code (answer a) (new_claim name print) s.claims free in
            ap (λ cs. find_claim kept (fill_claim name code (answer a) cs)) q
            ∙ (ap (find_claim kept) filled ∙ find_claim-behind kept y s.claims h)
        from (err e, u) q =
            ap (find_claim kept) q ∙ find_claim-behind kept (new_claim name print) s.claims h

    looked :
        (o : Option Claim) (s : Store)
        → find_claim name s.claims ≡ o
        → Holds s
        → Holds ((insert_or_resolve name print o >>= work_under code work answer) s).1
    unfolding insert_or_resolve resolve_existing
    looked none s e h = worked s h e
    looked (some x) s e h = ground arith

    guarded-Holds : Keeps Holds (guarded env route key payload code work answer)
    unfolding guarded claim
    guarded-Holds s h = elim (Bool-cases (str_eq key "")) [
      | inl empty ↦ rw empty h
      | inr named ↦ rw named (looked (find_claim name s.claims) s refl h)
    ]

  handle-Holds : (env : Env) (r : Request) → Keeps Holds (handle env r)
  unfolding handle create_reservations commit_reservations release_reservations adjust_stock
      expire_reservations reserve_block commit_block release_block adjust_block sweep_block
  handle-Holds env (reserve c ls k ttl key) =
      let expires_at = env.now + ttl_or_default ttl * 60 in
      raise_if-Keeps Holds (is_empty ls || not (all_positive ls)) unprocessable
        (respond (λ stored. stored) (reserve_block env c ls k ttl key))
        (respond-Holds (λ stored. stored) (reserve_block env c ls k ttl key)
          (guarded-Holds env "/v1/reservations" (key_or key c) (reserve_request c ls k ttl) 201
            (place_each k c expires_at (sorted ls))
            (λ rows. reserve_response c (outs rows) expires_at)))
  handle-Holds env (commit c label ref key) =
      respond-Holds (λ _. 200) (commit_block env c label ref key)
        (guarded-Holds env "/v1/reservations/{checkout_id}/commit"
          (key_or key (str_append c ":commit")) (commit_request label ref) 200
          (sell_group env.now ref c) (λ rows. commit_response c (length rows) (outs rows)))
  handle-Holds env (release c key) =
      respond-Holds (λ _. 200) (release_block env c key)
        (guarded-Holds env "/v1/reservations/{checkout_id}/release"
          (key_or key (str_append c ":release")) release_request 200 (release_group env.now c)
          (release_response c))
  handle-Holds env (adjust_one v d why label ref key) =
      respond-Holds (λ _. 200) (adjust_block env v d why label ref key)
        (guarded-Holds env "/v1/stock/adjustments" (or_empty key) (adjust_request v d why label ref)
          200 (adjust v d why ref) (adjusted v))
  handle-Holds env expire =
      respond-Holds (λ _. 200) (sweep_block env)
        (bind-Keeps Holds (on_tables (sweep env.now))
          (λ n. pure (record { status_code = 200; replayed = false; body = sweep_response n }))
          (on_tables-Holds (sweep env.now)) (λ n s h. h))

  -- Whatever requests follow, the row of a claimed key stays.
  pub serve_all-Holds : (rs : List (Env × Request)) (s : Store) → Holds s → Holds (serve_all rs s)
  unfolding serve_all
  serve_all-Holds [] s h = h
  serve_all-Holds ((env, r) ∷ rs) s h =
      serve_all-Holds rs (handle env r s).1 (handle-Holds env r s h)
