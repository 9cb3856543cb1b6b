-- ===== src/Checkout/Local/Placed.antt =====
-- apps/orders/checkout.py over the in-process provider: the stock that a checkout that returns has
-- taken, from the lines of the request to the counters.
use tip_metro_drip_ecommerce.Base.{
  ℕ, ◌+◌, ◌≤◌, ℤ, ◌≡◌, refl, sym, ap, ◌∙◌, subst, String, none, some, List, [], ◌∷◌, Dict, ◌⊎◌,
  length, arith, if◌then◌else◌, ◌==◌, lookup, insert,
}
use tip_metro_drip_ecommerce.Base.Action.{ok}
use tip_metro_drip_ecommerce.Inventory.{Ledger, find_key}
use tip_metro_drip_ecommerce.Inventory.Soundness.{reserved_at, on_hand_at}
use tip_metro_drip_ecommerce.Inventory.Provider.{Env, idempotency_key}
use tip_metro_drip_ecommerce.Inventory.Reserve.{reserve_lines}
use tip_metro_drip_ecommerce.Inventory.Reserve.Invariants.{reserve_lines-Keeps}
use tip_metro_drip_ecommerce.Checkout.{CartLine, quantity, merge_lines, parse_items}
use tip_metro_drip_ecommerce.Checkout.Cart.{units_asked}
use tip_metro_drip_ecommerce.Inventory.Reserve.Effects.{requested}
use tip_metro_drip_ecommerce.Checkout.Saga.{
  StockFailure, StockLedger, Failure, payment_session_error, Shop, place_order,
}
use tip_metro_drip_ecommerce.Checkout.Saga as Saga
use tip_metro_drip_ecommerce.Checkout.Local.{Stocked, lines_of}
use tip_metro_drip_ecommerce.Base.{Bool, true, false, suc, ltb}
use tip_metro_drip_ecommerce.Checkout.{max_checkout_lines, quantity, merge_lines, parse_items}
use tip_metro_drip_ecommerce.Checkout.Cart.{units_asked, merge_lines_inv, unless_inv}
use tip_metro_drip_ecommerce.Inventory.Reserve.Effects.{requested, reserve_lines_effect}
use tip_metro_drip_ecommerce.Checkout.Saga.Placed.{place_order-IsPlaced}
use tip_metro_drip_ecommerce.Checkout.Local.Laws.{local, on_tables_returns}

at_key : ℕ → ℕ → ℕ → ℕ
at_key v j n = if j == v then n else 0

requested-cons :
    (v j n : ℕ) (d : Dict ℕ)
    → requested v (lines_of ((j, n) ∷ d)) ≡ at_key v j n + requested v (lines_of d)
unfolding requested at_key
requested-cons v j n d = ground arith

-- One more line of the cart adds its units to the request.
requested-insert :
    (v u n : ℕ) (d : Dict ℕ)
    → requested v (lines_of (insert u (quantity u d + n) d))
      ≡ requested v (lines_of d) + at_key v u n
unfolding requested at_key
requested-insert v u n [] = ground arith
requested-insert v u n ((j, w) ∷ d) = from (j == u) refl (requested-insert v u n d)
  where
    so_far : Bool → ℕ
    so_far b = elim (if b then some w else lookup u d) [ none ↦ 0 | some m ↦ m ]

    from :
        (b : Bool)
        → (j == u) ≡ b
        → requested v (lines_of (insert u (quantity u d + n) d))
          ≡ requested v (lines_of d) + at_key v u n
        → requested v
            (lines_of (if b then (j, so_far b + n) ∷ d else (j, w) ∷ insert u (so_far b + n) d))
          ≡ requested v (lines_of ((j, w) ∷ d)) + at_key v u n
    from true here ih = ground arith
    from false apart ih = ground arith

merge_lines-requested :
    (v : ℕ) (ls : List CartLine) (d : Dict ℕ) {r : Dict ℕ}
    → merge_lines ls d ≡ some r
    → requested v (lines_of r) ≡ requested v (lines_of d) + units_asked v ls
unfolding merge_lines at_key
merge_lines-requested v [] d e =
    ap (λ o. elim o [ none ↦ 0 | some x ↦ requested v (lines_of x) ]) (sym e) ∙ omega arith
merge_lines-requested v (l ∷ ls) d e =
    let (u, n, c, rest) = merge_lines_inv l ls d e in
    rw c (
      merge_lines-requested v ls (insert u (quantity u d + n) d) rest
      ∙ (ap (λ x. x + units_asked v ls) (requested-insert v u n d) ∙ omega arith))

parse_items-requested :
    (v : ℕ) (ls : List CartLine) {d : Dict ℕ}
    → parse_items (some ls) ≡ some d
    → requested v (lines_of d) ≡ units_asked v ls
unfolding parse_items requested
parse_items-requested v [] e = cc
parse_items-requested v (l ∷ ls) e =
    let (short, merged) =
      unless_inv (ltb max_checkout_lines (suc (length ls))) (merge_lines (l ∷ ls) []) e in
    merge_lines-requested v (l ∷ ls) [] merged ∙ omega arith

module _ {opening : ℕ → ℤ} (env : Env) (session_key : String) where
  abbrev ops : StockLedger (Stocked opening)
  ops = local {opening = opening} env session_key

  -- A checkout over the in-process provider that returns, for a `checkout_id` that no earlier call has
  -- used: for every SKU `qty_reserved` has risen by exactly the units that the lines of the request
  -- ask for together, wherever they stand, and is within `qty_on_hand` where any was asked for; no
  -- `qty_on_hand` and no movement has changed.
  pub place_order_takes :
      (shop_env : Saga.Env) (ls : List CartLine) (s : Shop (Stocked opening)) {a : ℕ × String}
      {t : Shop (Stocked opening)}
      → find_key (idempotency_key env "reserve_lines" shop_env.checkout_id) s.ledger.tables.keys
        ≡ none
      → place_order ops shop_env (some ls) s ≡ (ok a, t)
      → (v : ℕ)
      → (reserved_at v t.ledger.tables.stock
          ≡ reserved_at v s.ledger.tables.stock + units_asked v ls)
        × ((units_asked v ls ≡ 0)
            ⊎ (reserved_at v t.ledger.tables.stock ≤ on_hand_at v t.ledger.tables.stock))
        × (on_hand_at v t.ledger.tables.stock ≡ on_hand_at v s.ledger.tables.stock)
        × (t.ledger.tables.movements ≡ s.ledger.tables.movements)
  place_order_takes shop_env ls s {a} {t} fresh e v =
      let (d, fee, parsed, zone, priced, (label, n, numbered, u, given, k, built, session)) =
        place_order-IsPlaced ops shop_env (some ls) s e in
      let (rs, reserved) =
        on_tables_returns env session_key
          (reserve_lines env shop_env.checkout_id (lines_of d) session_key none)
          (λ P stable.
            reserve_lines-Keeps stable env shop_env.checkout_id (lines_of d) session_key none)
          s.ledger u given in
      let (raised, shelf, covered, still) =
        reserve_lines_effect env shop_env.checkout_id (lines_of d) session_key none s.ledger.tables
          fresh reserved in
      let asked : requested v (lines_of d) ≡ units_asked v ls = parse_items-requested v ls parsed in
      subst
        (λ (w : Ledger).
          (reserved_at v w.stock ≡ reserved_at v s.ledger.tables.stock + units_asked v ls)
          × ((units_asked v ls ≡ 0) ⊎ (reserved_at v w.stock ≤ on_hand_at v w.stock))
          × (on_hand_at v w.stock ≡ on_hand_at v s.ledger.tables.stock)
          × (w.movements ≡ s.ledger.tables.movements))
        (sym (ap (λ (x : Shop (Stocked opening)). x.ledger.tables) built))
        (
          subst (λ (m : ℕ). reserved_at v u.tables.stock ≡ reserved_at v s.ledger.tables.stock + m)
              asked (raised v),
          subst (λ (m : ℕ). (m ≡ 0) ⊎ (reserved_at v u.tables.stock ≤ on_hand_at v u.tables.stock))
              asked (covered v),
          shelf v,
          still,
        )
