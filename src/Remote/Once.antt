-- ===== src/Remote/Once.antt =====
-- apps/inventory/providers/service.py and services/inventory: what the attempts of one call do to the
-- ledger.
use tip_metro_drip_ecommerce.Base.{
  List, [], ◌∷◌, ◌++◌, ℕ, zero, suc, ◌≡◌, refl, sym, ap, ◌∙◌, subst, Bool, true, false, not, ◌||◌,
  inl, inr, ◌⊎◌,
}
use tip_metro_drip_ecommerce.Base.Action.{Result, ok, err, Action, raise_if, ◌>>◌}
use tip_metro_drip_ecommerce.Inventory.Reserve.{is_empty}
use tip_metro_drip_ecommerce.Service.{
  HttpError, unprocessable, Stop, http, replay, Store, Response, Env, Block, respond,
}
use tip_metro_drip_ecommerce.Service.Reservations.{
  reserve_block, commit_block, release_block, sweep_block, create_reservations, commit_reservations,
  release_reservations, expire_reservations, all_positive,
}
use tip_metro_drip_ecommerce.Service.Adjustments.{adjust_block, adjust_stock}
use tip_metro_drip_ecommerce.Service.History.{
  Request, reserve, commit, release, adjust_one, expire, handle, serve_all,
}
use tip_metro_drip_ecommerce.Service.Replay.{has_key, handle_again}
use tip_metro_drip_ecommerce.Remote.{
  Delivery, lost, heard, unheard, cut, Wire, Site, server, after_delivery, served,
}

-- What came out of a transaction: an answer, or the state from before it.
abbrev pub Settles : Store → Result HttpError Response × Store → Type 0
Settles s p = ((a : Response) × (p.0 ≡ ok a)) ⊎ (p.1 ≡ s)

respond-Settles : (sent : ℕ → ℕ) (m : Block Response) (s : Store) → Settles s (respond sent m s)
unfolding respond
respond-Settles sent m s = from (m s)
  where
    from :
        (p : Result Stop Response × Store)
        → Settles s (elim p.0 as (λ _. Result HttpError Response × Store) [
          | ok r ↦ (ok r, p.1)
          | err x ↦ elim x [
            | http e ↦ (err e, s)
            | replay stored body ↦
                (ok (record { status_code = sent stored; replayed = true; body = body }), s)
          ]
        ])
    from (ok r, t) = inl (r, refl)
    from (err (http e), t) = inr refl
    from (err (replay stored body), t) = inr refl

raise_if-Settles :
    (b : Bool) (m : Action HttpError Store Response) (s : Store)
    → Settles s (m s)
    → Settles s ((raise_if b unprocessable >> m) s)
raise_if-Settles true m s h = inr refl
raise_if-Settles false m s h = h

pub handle-Settles : (env : Env) (r : Request) (s : Store) → Settles s (handle env r s)
unfolding handle create_reservations commit_reservations release_reservations adjust_stock
    expire_reservations
handle-Settles env (reserve c ls k ttl key) s =
    raise_if-Settles (is_empty ls || not (all_positive ls))
      (respond (λ stored. stored) (reserve_block env c ls k ttl key)) s
      (respond-Settles (λ stored. stored) (reserve_block env c ls k ttl key) s)
handle-Settles env (commit c label ref key) s =
    respond-Settles (λ _. 200) (commit_block env c label ref key) s
handle-Settles env (release c key) s = respond-Settles (λ _. 200) (release_block env c key) s
handle-Settles env (adjust_one v d why label ref key) s =
    respond-Settles (λ _. 200) (adjust_block env v d why label ref key) s
handle-Settles env expire s = respond-Settles (λ _. 200) (sweep_block env) s

serve_all-append :
    (rs rs' : List (Env × Request)) (s : Store)
    → serve_all (rs ++ rs') s ≡ serve_all rs' (serve_all rs s)
unfolding serve_all
serve_all-append [] rs' s = refl
serve_all-append ((env, r) ∷ rs) rs' s = serve_all-append rs rs' (handle env r s).1

module _ (site : Site) (r : Request) where
  -- The request was answered at some time, and other requests may have followed.
  abbrev pub IsDone : Store → Type 0
  IsDone t =
      (now : ℕ) × (s : Store) × (a : Response) × (u : Store) × (between : List (Env × Request))
      × (handle (server site now) r s ≡ (ok a, u))
      × (serve_all between u ≡ t)

  pub now-IsDone :
      (now : ℕ) (s : Store) (a : Response) (t : Store)
      → handle (server site now) r s ≡ (ok a, t)
      → IsDone t
  unfolding serve_all
  now-IsDone now s a t e = (now, s, a, t, [], e, refl)

  pub later-IsDone :
      (between : List (Env × Request)) (t : Store) → IsDone t → IsDone (serve_all between t)
  later-IsDone between t (now, s, a, u, before, e, at) = (
    now,
    s,
    a,
    u,
    before ++ between,
    e,
    serve_all-append before between u ∙ ap (serve_all between) at,
  )

  -- The state is as before, or the one that a single answered handling of the request left.
  abbrev pub IsOnce : Store → Store → Type 0
  IsOnce s t = (t ≡ s) ⊎ ((now : ℕ) × (a : Response) × (handle (server site now) r s ≡ (ok a, t)))

module _ (site : Site) (wire : Wire) (r : Request) (keyed : has_key r ≡ true) where
  -- From there on, further deliveries change nothing.
  pub handle_done : (now : ℕ) (t : Store) → IsDone site r t → (handle (server site now) r t).1 ≡ t
  handle_done now t (before, s, a, u, between, e, at) =
      let (code, again) = handle_again (server site before) now r between s keyed e in
      subst (λ x. (handle (server site now) r x).1 ≡ x) at
        (ap (λ (p : Result HttpError Response × Store). p.1) again)

  pub served_done : (n : ℕ) (t : Store) → IsDone site r t → served site wire r n t ≡ t
  unfolding served
  served_done zero t h = refl
  served_done (suc n) t h = from (wire.delivery (suc n)) (served_done n t h)
    where
      from :
          (d : Delivery)
          → served site wire r n t ≡ t
          → after_delivery
              (served site wire r n t)
              (handle (server site (wire.now (suc n))) r (served site wire r n t))
              d
            ≡ t
      from lost q = q
      from heard q =
          ap (λ x. (handle (server site (wire.now (suc n))) r x).1) q
          ∙ handle_done (wire.now (suc n)) t h
      from unheard q =
          ap (λ x. (handle (server site (wire.now (suc n))) r x).1) q
          ∙ handle_done (wire.now (suc n)) t h
      from cut q =
          ap (λ x. (handle (server site (wire.now (suc n))) r x).1) q
          ∙ handle_done (wire.now (suc n)) t h

  pub served-IsOnce : (n : ℕ) (s : Store) → IsOnce site r s (served site wire r n s)
  unfolding served
  served-IsOnce zero s = inl refl
  served-IsOnce (suc n) s = from (wire.delivery (suc n)) (served-IsOnce n s)
    where
      before : Store
      before = served site wire r n s

      now : ℕ
      now = wire.now (suc n)

      after : Store
      after = (handle (server site now) r before).1

      with_after : Result HttpError Response → Result HttpError Response × Store
      with_after x = (x, after)

      first :
          before ≡ s → Settles before (handle (server site now) r before) → IsOnce site r s after
      first q (inl (a, e)) =
          inr
            (now, a, subst (λ x. handle (server site now) r x ≡ (ok a, after)) q (ap with_after e))
      first q (inr e) = inl (e ∙ q)

      handled : IsOnce site r s before → IsOnce site r s after
      handled (inl q) = first q (handle-Settles (server site now) r before)
      handled (inr (earlier, a, e)) = inr (
        earlier,
        a,
        subst (λ x. handle (server site earlier) r s ≡ (ok a, x))
            (sym (handle_done now before (now-IsDone site r earlier s a before e))) e,
      )

      from :
          (d : Delivery)
          → IsOnce site r s before
          → IsOnce site r s (after_delivery before (handle (server site now) r before) d)
      from lost q = q
      from heard q = handled q
      from unheard q = handled q
      from cut q = handled q
