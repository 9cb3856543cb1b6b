-- ===== src/Service/Claims.antt =====
-- services/inventory/idempotency.py: the claims of a store, and what a block does to them.
use tip_metro_drip_ecommerce.Base.{
  ℕ, ◌≡◌, ◌≢◌, refl, sym, ap, String, str_eq, Bool, true, false, Option, none, some, List, [], ◌∷◌,
  ◌++◌, ◌==◌, if◌then◌else◌, Bool-cases, inl, inr, arith,
}
use tip_metro_drip_ecommerce.Base.Action.{Result, ok, err}
use tip_metro_drip_ecommerce.Base.Invert.{returned_value, returned_state}
use text.Mathlib.TextPositions.{eq_refl}
use tip_metro_drip_ecommerce.Inventory.{Ledger}
use tip_metro_drip_ecommerce.Service.{
  Body, Claim, HttpError, Stop, http, replay, Store, Response, Block, on_tables, find_claim,
  fill_claim, new_claim, insert_or_resolve, resolve_existing, respond,
}
use tip_metro_drip_ecommerce.Service.Reservations.{Work}

-- The key is claimed for this fingerprint, and the claim is answered with this body.
abbrev pub IsAnswered : String → String → Body → Store → Type 0
IsAnswered h print body s =
    (c : Claim) × (find_claim h s.claims ≡ some c)
    × (str_eq c.request_fingerprint print ≡ true)
    × ((c.status_code == 0) ≡ false)
    × (c.response_body ≡ body)

abbrev pub filled : ℕ → Body → Claim → Claim
filled code body c = record c { status_code = code; response_body = body }

pub find_claim-append :
    (h : String) (c : Claim) (cs : List Claim)
    → find_claim h cs ≡ none
    → c.key_hash ≡ h
    → find_claim h (cs ++ c ∷ []) ≡ some c
find_claim-append h c [] e at = rw (at, eq_refl) refl
find_claim-append h c (x ∷ xs) e at = elim (Bool-cases (str_eq x.key_hash h)) [
  | inl here ↦ absurd (ground arith)
  | inr apart ↦ rw apart (find_claim-append h c xs (ground arith) at)
]

pub find_claim-fill_claim :
    (h : String) (code : ℕ) (body : Body) (cs : List Claim) {c : Claim}
    → find_claim h cs ≡ some c
    → find_claim h (fill_claim h code body cs) ≡ some (filled code body c)
find_claim-fill_claim h code body [] e = cc
find_claim-fill_claim h code body (x ∷ xs) {c} e =
    from (str_eq x.key_hash h) refl (find_claim-fill_claim h code body xs {c = c}) e
  where
    some_inj : {a b : Claim} → ◌≡◌ {A = Option Claim} (some a) (some b) → a ≡ b
    some_inj q = cc

    from :
        (b : Bool)
        → str_eq x.key_hash h ≡ b
        → (find_claim h xs ≡ some c
            → find_claim h (fill_claim h code body xs) ≡ some (filled code body c))
        → (if b then some x else find_claim h xs) ≡ some c
        → find_claim h (if b then filled code body x ∷ xs else x ∷ fill_claim h code body xs)
          ≡ some (filled code body c)
    from true here ih q = rw here (ap (λ (y : Claim). some (filled code body y)) (some_inj q))
    from false apart ih q = rw apart (ih q)

-- A claim that returned has written a new key.
pub insert_or_resolve_inv :
    (h print : String) (o : Option Claim) (s : Store) {k : String} {t : Store}
    → insert_or_resolve h print o s ≡ (ok k, t)
    → (o ≡ none) × (k ≡ h) × (t ≡ record s { claims = s.claims ++ new_claim h print ∷ [] })
unfolding insert_or_resolve resolve_existing
insert_or_resolve_inv h print none s e = (refl, sym (returned_value e), sym (returned_state e))
insert_or_resolve_inv h print (some c) s e = absurd (ground arith)

-- A claim that stops with `Replay` has found an answered one for the same request.
pub insert_or_resolve_replay :
    (h print : String) (o : Option Claim) (s : Store) {code : ℕ} {body : Body} {t : Store}
    → insert_or_resolve h print o s ≡ (err (replay code body), t)
    → (c : Claim) × (o ≡ some c)
      × (str_eq c.request_fingerprint print ≡ true)
      × ((c.status_code == 0) ≡ false)
      × (c.response_body ≡ body)
unfolding insert_or_resolve resolve_existing
insert_or_resolve_replay h print none s e = cc
insert_or_resolve_replay h print (some c) s e =
    elim (Bool-cases (str_eq c.request_fingerprint print)) [
      | inr other ↦ absurd (ground arith)
      | inl same ↦ elim (Bool-cases (c.status_code == 0)) [
        | inl waiting ↦ absurd (ground arith)
        | inr done ↦ (c, refl, same, done, ground arith)
      ]
    ]

pub insert_or_resolve_again :
    (h print : String) (c : Claim) (s : Store)
    → str_eq c.request_fingerprint print ≡ true
    → (c.status_code == 0) ≡ false
    → insert_or_resolve h print (some c) s ≡ (err (replay c.status_code c.response_body), s)
unfolding insert_or_resolve resolve_existing
insert_or_resolve_again h print c s same done = rw (same, done) refl

pub respond_stored :
    (sent : ℕ → ℕ) (m : Block Response) (s : Store) {stored : ℕ} {body : Body}
    → m s ≡ (err (replay stored body), s)
    → respond sent m s
      ≡ (ok (record { status_code = sent stored; replayed = true; body = body }), s)
unfolding respond
respond_stored sent m s e =
    ap
      (λ p. elim p.0 as (λ _. Result HttpError Response × Store) [
        | ok r ↦ (ok r, p.1)
        | err x ↦ elim x [
          | http e ↦ (err e, s)
          | replay stored body ↦
              (ok (record { status_code = sent stored; replayed = true; body = body }), s)
        ]
      ])
      e

module _ {A : Type 0} (m : Work A) (s : Store) where
  pub on_tables_claims : {a : A} {t : Store} → on_tables m s ≡ (ok a, t) → t.claims ≡ s.claims
  on_tables_claims {a} {t} e = from (m s.tables) e
    where
      from :
          (p : Result HttpError A × Ledger)
          → ◌≡◌ {A = Result Stop A × Store}
              (elim p.0 as (λ _. Result Stop A × Store) [
                | ok x ↦ (ok x, record s { tables = p.1 })
                | err x ↦ (err (http x), record s { tables = p.1 })
              ])
              (ok a, t)
          → t.claims ≡ s.claims
      from (ok x, u) h = ap (λ (q : Store). q.claims) (sym (returned_state h))
      from (err x, u) h = cc

  pub on_tables_never_replays :
      {code : ℕ} {body : Body} {t : Store} → on_tables m s ≢ (err (replay code body), t)
  on_tables_never_replays {code} {body} {t} e = from (m s.tables) e
    where
      from :
          (p : Result HttpError A × Ledger)
          → ◌≢◌ {A = Result Stop A × Store}
              (elim p.0 as (λ _. Result Stop A × Store) [
                | ok x ↦ (ok x, record s { tables = p.1 })
                | err x ↦ (err (http x), record s { tables = p.1 })
              ])
              (err (replay code body), t)
      from (ok x, u) h = cc
      from (err x, u) h = cc
