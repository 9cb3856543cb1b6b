-- ===== src/Checkout/Local.antt =====
-- apps/inventory/services.py with INVENTORY_PROVIDER "local": the in-process provider as the stock
-- ledger of a checkout. The state is a ledger together with the invariants that all calls keep.
pub mod Laws
pub mod Placed
mod Tests
use tip_metro_drip_ecommerce.Base.{ℕ, ℤ, pos, String, none, List, [], ◌∷◌, Dict, select}
use tip_metro_drip_ecommerce.Base.Action.{Result, ok, err, Action}
use tip_metro_drip_ecommerce.Base.Keeps.{Keeps}
use tip_metro_drip_ecommerce.Inventory.{Ledger}
use tip_metro_drip_ecommerce.Inventory.Soundness.{IsSound}
use tip_metro_drip_ecommerce.Inventory.Provider.{StockError, Call, Line, Env}
use tip_metro_drip_ecommerce.Inventory.Reserve.{reserve_lines}
use tip_metro_drip_ecommerce.Inventory.Reserve.Invariants.{reserve_lines-Keeps}
use tip_metro_drip_ecommerce.Inventory.Settle.{release_holds}
use tip_metro_drip_ecommerce.Inventory.Settle.Invariants.{release_holds-Keeps}
use tip_metro_drip_ecommerce.Inventory.Keyed.{IsKeyed, IsKeyed-IsStable}
use tip_metro_drip_ecommerce.Inventory.Stable.{IsStable}
use tip_metro_drip_ecommerce.Inventory.Sound.{IsSound-IsStable}
use tip_metro_drip_ecommerce.Inventory.Frees.{held_by}
use tip_metro_drip_ecommerce.Checkout.Saga.{StockFailure, StockLedger}

pub record Stocked (opening : ℕ → ℤ) : Type 0 where
  pub tables : Ledger
  pub sound : IsSound opening tables
  pub keyed : IsKeyed tables

-- What a checkout tells apart of the provider's exceptions.
abbrev pub failure : StockError → StockFailure
failure StockError.insufficient_stock = StockFailure.insufficient_stock
failure StockError.reservation_unavailable = StockFailure.reservation_unavailable
failure StockError.does_not_exist = StockFailure.refused
failure StockError.value_error = StockFailure.refused
failure StockError.invalid_reservation_state = StockFailure.refused
failure StockError.invalid_stock_adjustment = StockFailure.refused

-- `[{"variant_id": vid, "qty": qty} for vid, qty in quantities.items()]`
abbrev pub lines_of : Dict ℕ → List Line
lines_of [] = []
lines_of ((v, n) ∷ d) = record { variant_id = v; qty = pos n } ∷ lines_of d

abbrev pub answer : {A : Type 0} → Result StockError A → Result StockFailure (Unit {0})
answer (ok a) = ok tt
answer (err e) = err (failure e)

module _ {opening : ℕ → ℤ} where
  -- A call of the provider, whose value the checkout drops.
  abbrev pub on_tables :
      {A : Type 0} (m : Call A)
      → ((P : Ledger → Type 0) → IsStable P → Keeps P m)
      → Action StockFailure (Stocked opening) (Unit {0})
  on_tables m keeps u = (
    answer (m u.tables).0,
    record {
      tables = (m u.tables).1;
      sound = keeps (IsSound opening) (IsSound-IsStable opening) u.tables u.sound;
      keyed = keeps IsKeyed IsKeyed-IsStable u.tables u.keyed;
    },
  )

  abbrev pub local_provider : Env → String → StockLedger (Stocked opening)
  local_provider env session_key = record {
    reserve_lines = λ c d.
        on_tables (reserve_lines env c (lines_of d) session_key none)
          (λ P stable. reserve_lines-Keeps stable env c (lines_of d) session_key none);
    release_holds =
        λ c. on_tables (release_holds env c) (λ P stable. release_holds-Keeps stable env c);
  }

  -- The units held for a checkout.
  abbrev pub held_for : String → Stocked opening → ℕ
  held_for c u = held_by c u.tables.reservations
