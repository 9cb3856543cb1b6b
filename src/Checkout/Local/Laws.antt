-- ===== src/Checkout/Local/Laws.antt =====
-- apps/orders/checkout.py over the in-process provider: the laws that a checkout relies on hold of it,
-- and what a checkout does to the ledger from end to end.
use tip_metro_drip_ecommerce.Base.{
  ℕ, ℤ, ◌≡◌, ◌≢◌, refl, sym, ap, ◌∙◌, String, Option, none, List, inl, inr, ◌⊎◌,
}
use tip_metro_drip_ecommerce.Base.Action.{Result, ok, err}
use tip_metro_drip_ecommerce.Base.Keeps.{Keeps, IsAllOrNothing}
use tip_metro_drip_ecommerce.Inventory.{Ledger}
use tip_metro_drip_ecommerce.Inventory.Provider.{StockError, Call, Env}
use tip_metro_drip_ecommerce.Inventory.Reserve.{reserve_lines}
use tip_metro_drip_ecommerce.Inventory.Reserve.Invariants.{reserve_lines-Keeps}
use tip_metro_drip_ecommerce.Inventory.Atomicity.{operations-IsAllOrNothing}
use tip_metro_drip_ecommerce.Inventory.Stable.{IsStable}
use tip_metro_drip_ecommerce.Inventory.Frees.{held_by}
use tip_metro_drip_ecommerce.Inventory.Frees.Loop.{release_holds_frees}
use tip_metro_drip_ecommerce.Checkout.{CartLine}
use tip_metro_drip_ecommerce.Checkout.Saga.{
  StockFailure, StockLedger, Failure, payment_session_error, Shop, place_order,
}
use tip_metro_drip_ecommerce.Checkout.Saga as Saga
use tip_metro_drip_ecommerce.Checkout.Saga.Steps.{IsStockLedger}
use tip_metro_drip_ecommerce.Checkout.Saga.Compensation.{place_order-IsUndone}
use tip_metro_drip_ecommerce.Checkout.Local.{
  Stocked, lines_of, answer, on_tables, local_provider, held_for,
}

module _ {opening : ℕ → ℤ} (env : Env) (session_key : String) where
  abbrev pub local : StockLedger (Stocked opening)
  local = local_provider env session_key

  -- A call that raises and is all or nothing leaves the tables.
  on_tables_raises :
      {A : Type 0} (m : Call A) (keeps : (P : Ledger → Type 0) → IsStable P → Keeps P m)
      (u v : Stocked opening) (e : StockFailure)
      → IsAllOrNothing m
      → on_tables m keeps u ≡ (err e, v)
      → v.tables ≡ u.tables
  on_tables_raises {A} m keeps u v e whole h =
      ap (λ (p : Result StockFailure (Unit {0}) × Stocked opening). p.1.tables) (sym h)
      ∙ from (m u.tables).0 refl
          (ap (λ (p : Result StockFailure (Unit {0}) × Stocked opening). p.0) h)
    where
      from :
          (r : Result StockError A)
          → (m u.tables).0 ≡ r
          → answer r ≡ err e
          → (m u.tables).1 ≡ u.tables
      from (ok a) at q = cc
      from (err x) at q = whole u.tables x at

  pub on_tables_returns :
      {A : Type 0} (m : Call A) (keeps : (P : Ledger → Type 0) → IsStable P → Keeps P m)
      (u v : Stocked opening)
      → on_tables m keeps u ≡ (ok tt, v)
      → (a : A) × (m u.tables ≡ (ok a, v.tables))
  on_tables_returns {A} m keeps u v h =
      from (m u.tables) (ap (λ (p : Result StockFailure (Unit {0}) × Stocked opening). p.0) h)
        (ap (λ (p : Result StockFailure (Unit {0}) × Stocked opening). p.1.tables) h)
    where
      from :
          (p : Result StockError A × Ledger)
          → answer p.0 ≡ ok tt
          → p.1 ≡ v.tables
          → (a : A) × (p ≡ (ok a, v.tables))
      from (ok a, t) q at = (a, ap (λ (t : Ledger). (ok a, t)) at)
      from (err x, t) q at = cc

  local-IsStockLedger : IsStockLedger local held_for
  local-IsStockLedger = record {
    all_or_nothing = λ c d u v e _ h.
        let (one, whole, c1, c2, c3, c4, c5) = operations-IsAllOrNothing env in
        ap (λ (s : Ledger). held_by c s.reservations)
          (on_tables_raises (reserve_lines env c (lines_of d) session_key none)
            (λ P stable. reserve_lines-Keeps stable env c (lines_of d) session_key none) u v e
            (whole c (lines_of d) session_key none) h);
    gives_back = λ c u v h.
        let (t, done, freed) = release_holds_frees opening env c u.tables u.sound u.keyed in
        ap (λ (p : Result StockFailure (Unit {0}) × Stocked opening). held_for c p.1) (sym h)
        ∙ (ap (λ (p : Result StockError ℕ × Ledger). held_by c p.1.reservations) done ∙ freed);
  }

  -- The provider never refuses a release.
  never_refused :
      (c : String) (u v : Stocked opening) (e : StockFailure) → local.release_holds c u ≢ (err e, v)
  never_refused c u v e h =
      let (t, done, freed) = release_holds_frees opening env c u.tables u.sound u.keyed in
      absurd (
        apart (
          ap (λ (p : Result StockError ℕ × Ledger). answer p.0) (sym done)
          ∙ ap (λ (p : Result StockFailure (Unit {0}) × Stocked opening). p.0) h))
    where
      apart : ◌≢◌ {A = Result StockFailure (Unit {0})} (ok tt) (err e)
      apart q = cc

  -- A checkout over the in-process provider, on tables that are sound and hold nothing under its
  -- `checkout_id`: if it raises, at whatever step and with whatever fault, no unit of stock is held
  -- under its `checkout_id` afterwards; and it leaves no order row, counter or receipt behind, unless
  -- it is the payment session that failed.
  pub place_order_frees :
      (shop_env : Saga.Env) (items : Option (List CartLine)) (s : Shop (Stocked opening))
      {x : Failure} {t : Shop (Stocked opening)}
      → held_for shop_env.checkout_id s.ledger ≡ 0
      → place_order local shop_env items s ≡ (err x, t)
      → (held_for shop_env.checkout_id t.ledger ≡ 0)
        × ((x ≡ payment_session_error) ⊎ (t ≡ record s { ledger = t.ledger }))
  place_order_frees shop_env items s {x} {t} z e =
      let (freed, rows) =
        place_order-IsUndone local held_for local-IsStockLedger shop_env items s z e in
      (
        elim freed [
          | inl none_held ↦ none_held
          | inr (v, y, q) ↦ absurd (never_refused shop_env.checkout_id v t.ledger y q)
        ],
        rows,
      )
