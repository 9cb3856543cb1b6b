-- ===== src/Inventory/History.antt =====
-- Every call that the code makes of `LocalInventoryProvider`, and histories of calls: each takes its
-- locks before it reads, so that concurrent callers are some order of whole calls.
use tip_metro_drip_ecommerce.Base.{ℕ, ℤ, Option, String, List, [], ◌∷◌, Value}
use tip_metro_drip_ecommerce.Inventory.{Ledger}
use tip_metro_drip_ecommerce.Inventory.Soundness.{IsSound}
use tip_metro_drip_ecommerce.Inventory.Stable.{IsStable}
use tip_metro_drip_ecommerce.Inventory.Sound.{IsSound-IsStable}
use tip_metro_drip_ecommerce.Inventory.Provider.{Line, Env}
use tip_metro_drip_ecommerce.Inventory.Reserve.{reserve_stock, reserve_lines}
use tip_metro_drip_ecommerce.Inventory.Settle.{
  commit_reservation, commit_holds, release_reservation, release_holds,
  release_expired_reservations,
}
use tip_metro_drip_ecommerce.Inventory.Adjust.{adjust_stock, restore_order_stock}
use tip_metro_drip_ecommerce.Inventory.Reserve.Invariants.{reserve_stock-Keeps, reserve_lines-Keeps}
use tip_metro_drip_ecommerce.Inventory.Settle.Invariants.{
  commit_reservation-Keeps, commit_holds-Keeps, release_reservation-Keeps, release_holds-Keeps,
  release_expired_reservations-Keeps,
}
use tip_metro_drip_ecommerce.Inventory.Adjust.Invariants.{
  adjust_stock-Keeps, restore_order_stock-Keeps,
}

pub data Request : Type 0 where
  reserve_one : ℕ → Value → String → Option ℕ → String → Request
  reserve_cart : String → List Line → String → Option ℕ → Request
  commit_one : ℕ → Option ℕ → Request
  commit_group : String → Option ℕ → Request
  release_one : ℕ → Request
  release_group : String → Request
  adjust : ℕ → Value → String → Option ℕ → Request
  refund : ℕ → String → List Line → Request
  sweep : Option ℕ → Request

-- The ledger that a call leaves, whether it returned or raised.
pub serve : Env → Request → Ledger → Ledger
serve env (reserve_one v q k o c) s = (reserve_stock env v q k o c s).1
serve env (reserve_cart c ls k ttl) s = (reserve_lines env c ls k ttl s).1
serve env (commit_one k o) s = (commit_reservation env k o s).1
serve env (commit_group c o) s = (commit_holds env c o s).1
serve env (release_one k) s = (release_reservation env k s).1
serve env (release_group c) s = (release_holds env c s).1
serve env (adjust v d why o) s = (adjust_stock v d why o s).1
serve env (refund k text ls) s = (restore_order_stock env k text ls s).1
serve env (sweep now) s = (release_expired_reservations env now s).1

-- The clock may differ from call to call.
unfoldable pub serve_all : List (Env × Request) → Ledger → Ledger
unfolding serve
serve_all [] s = s
serve_all ((env, r) ∷ rs) s = serve_all rs (serve env r s)

-- Whatever calls are made, in whatever order and whether they return or raise, they keep every
-- invariant that the five kinds of write keep.
pub serve-Keeps :
    {P : Ledger → Type 0} (stable : IsStable P) (env : Env) (r : Request) (s : Ledger)
    → P s
    → P (serve env r s)
unfolding serve
serve-Keeps stable env (reserve_one v q k o c) s h = reserve_stock-Keeps stable env v q k o c s h
serve-Keeps stable env (reserve_cart c ls k ttl) s h = reserve_lines-Keeps stable env c ls k ttl s h
serve-Keeps stable env (commit_one k o) s h = commit_reservation-Keeps stable env k o s h
serve-Keeps stable env (commit_group c o) s h = commit_holds-Keeps stable env c o s h
serve-Keeps stable env (release_one k) s h = release_reservation-Keeps stable env k s h
serve-Keeps stable env (release_group c) s h = release_holds-Keeps stable env c s h
serve-Keeps stable env (adjust v d why o) s h = adjust_stock-Keeps stable v d why o s h
serve-Keeps stable env (refund k text ls) s h = restore_order_stock-Keeps stable env k text ls s h
serve-Keeps stable env (sweep now) s h = release_expired_reservations-Keeps stable env now s h

pub serve_all-Keeps :
    {P : Ledger → Type 0} (stable : IsStable P) (rs : List (Env × Request)) (s : Ledger)
    → P s
    → P (serve_all rs s)
unfolding serve_all
serve_all-Keeps stable [] s h = h
serve_all-Keeps stable ((env, r) ∷ rs) s h =
    serve_all-Keeps stable rs (serve env r s) (serve-Keeps stable env r s h)

-- Whatever calls are made, in whatever order and whether they return or raise: if the ledger is
-- sound before, then for every SKU `qty_reserved` is the sum of its active holds, it is at most
-- `qty_on_hand`, and `qty_on_hand` is the opening count plus the sum of the SKU's movements.
pub serve_all-IsSound :
    (opening : ℕ → ℤ) (rs : List (Env × Request)) (s : Ledger)
    → IsSound opening s
    → IsSound opening (serve_all rs s)
serve_all-IsSound op rs s h = serve_all-Keeps (IsSound-IsStable op) rs s h
