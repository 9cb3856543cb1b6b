-- ===== src/Refunds/Again.antt =====
-- apps/orders/refunds.py: a refund that the outbox delivers again.
use tip_metro_drip_ecommerce.Base.{ℕ, ◌≡◌, refl, sym, ap, subst, String, List, [], ◌∷◌, inl, inr}
use tip_metro_drip_ecommerce.Base.Action.{Result, ok, err}
use tip_metro_drip_ecommerce.Base.Keeps.{Keeps, bind-Keeps}
use tip_metro_drip_ecommerce.Base.Invert.{bind_inv}
use package.text.Mathlib.TextPositions.{eq_refl}
use tip_metro_drip_ecommerce.Inventory.{Ledger, create_key}
use tip_metro_drip_ecommerce.Inventory.Provider.{
  StockError, invalid_stock_adjustment, Env, idempotency_key, fingerprint, sorted,
}
use tip_metro_drip_ecommerce.Inventory.Provider.Steps.{
  guarded_inv, guarded_replay, key_row, find_key-append,
}
use tip_metro_drip_ecommerce.Inventory.Stable.{IsStable}
use tip_metro_drip_ecommerce.Inventory.Claimed.{IsClaimed, IsClaimed-IsStable}
use tip_metro_drip_ecommerce.Inventory.Settle.{release_holds}
use tip_metro_drip_ecommerce.Inventory.Settle.Invariants.{release_holds-Keeps}
use tip_metro_drip_ecommerce.Inventory.Adjust.{restore_each, restore_order_stock}
use tip_metro_drip_ecommerce.Inventory.Adjust.Invariants.{restore_each-Keeps}
use tip_metro_drip_ecommerce.Inventory.History.{Request, serve_all, serve_all-Keeps}
use tip_metro_drip_ecommerce.Refunds.{RefundPayload, release_groups, deliver_refund}

release_groups-Keeps :
    {P : Ledger → Type 0} (stable : IsStable P) (env : Env) (cs : List String)
    → Keeps P (release_groups env cs)
unfolding release_groups
release_groups-Keeps stable env [] s h = h
release_groups-Keeps {P} stable env (c ∷ cs) s h =
    bind-Keeps P (release_holds env c) (λ _. release_groups env cs)
      (release_holds-Keeps stable env c) (λ _. release_groups-Keeps stable env cs) s h

-- The key of this refund is claimed for its lines.
abbrev IsRefunded : Env → RefundPayload → Ledger → Type 0
IsRefunded env p =
    IsClaimed (idempotency_key env "refund" p.order_text) (fingerprint env (sorted p.lines))

restore_claims :
    (env : Env) (p : RefundPayload) (s : Ledger) {a : Unit {0}} {t : Ledger}
    → restore_order_stock env p.order_id p.order_text p.lines s ≡ (ok a, t)
    → IsRefunded env p t
unfolding restore_order_stock
restore_claims env p s {a} {t} e =
    let key = idempotency_key env "refund" p.order_text in
    let print = fingerprint env (sorted p.lines) in
    let work = restore_each p.order_id (sorted p.lines) in
    let row = key_row key print 200 invalid_stock_adjustment (λ _. tt) in
    let state = λ (x : Result StockError (Unit {0}) × Ledger). x.1 in
    elim (guarded_inv key print 200 invalid_stock_adjustment (λ _. tt) work s e) [
      | inl (unclaimed, worked) ↦ subst (IsClaimed key print) (ap state worked) (
          restore_each-Keeps (IsClaimed-IsStable key print) p.order_id (sorted p.lines)
            (create_key row s) (row, find_key-append key row s.keys unclaimed refl, eq_refl print))
      | inr (r, claimed, same, answer, still) ↦
          subst (IsClaimed key print) (sym still) (r, claimed, same)
    ]

restore_again :
    (env : Env) (p : RefundPayload) (s : Ledger)
    → IsRefunded env p s
    → (restore_order_stock env p.order_id p.order_text p.lines s).1 ≡ s
unfolding restore_order_stock
restore_again env p s (r, claimed, same) =
    ap (λ (x : Result StockError (Unit {0}) × Ledger). x.1)
      (guarded_replay (idempotency_key env "refund" p.order_text) (fingerprint env (sorted p.lines))
        200 invalid_stock_adjustment (λ _. tt) (restore_each p.order_id (sorted p.lines)) s claimed
        same)

-- A refund that was delivered without an error and is delivered again, at any later time and after
-- whatever other calls of the provider: the second delivery does nothing to the ledger but release
-- what its checkouts hold by then, so that no unit of the order comes back twice.
pub deliver_refund_again :
    (env : Env) (later : ℕ) (p : RefundPayload) (between : List (Env × Request)) (s : Ledger)
    {a : Unit {0}} {t : Ledger}
    → deliver_refund env p s ≡ (ok a, t)
    → (deliver_refund (record env { now = later }) p (serve_all between t)).1
      ≡ (release_groups (record env { now = later }) p.checkout_ids (serve_all between t)).1
unfolding deliver_refund idempotency_key fingerprint
deliver_refund_again env later p between s {a} {t} e =
    let (b, u, released, restored) =
      bind_inv (release_groups env p.checkout_ids)
        (λ _. restore_order_stock env p.order_id p.order_text p.lines) s e in
    from (release_groups then_ p.checkout_ids (serve_all between t)) (
      release_groups-Keeps stable then_ p.checkout_ids (serve_all between t)
        (serve_all-Keeps stable between t (restore_claims env p u restored)))
  where
    then_ : Env
    then_ = record env { now = later }

    stable : IsStable (IsRefunded env p)
    stable =
        IsClaimed-IsStable (idempotency_key env "refund" p.order_text)
          (fingerprint env (sorted p.lines))

    from :
        (x : Result StockError (Unit {0}) × Ledger)
        → IsRefunded env p x.1
        → (elim x.0 as (λ _. Result StockError (Unit {0}) × Ledger) [
          | ok c ↦ restore_order_stock then_ p.order_id p.order_text p.lines x.1
          | err y ↦ (err y, x.1)
        ]).1
          ≡ x.1
    from (ok c, v) h = restore_again then_ p v h
    from (err y, v) h = refl
