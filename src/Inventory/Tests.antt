-- ===== src/Inventory/Tests.antt =====
-- Runs of the provider at concrete tables, and instances of the theorems.
use tip_metro_drip_ecommerce.Base.{
  ◌⊎◌, ℕ, ℤ, pos, ◌+ℤ◌, ◌-ℤ◌, ◌≡◌, refl, Bool, true, false, none, some, List, [], ◌∷◌, arith,
  if◌then◌else◌, ◌==◌, Value,
}
use tip_metro_drip_ecommerce.Base.{negsuc, select, ◌+◌, ◌≤◌}
use tip_metro_drip_ecommerce.Base.Action.{ok}
use tip_metro_drip_ecommerce.Inventory.{Ledger, sale}
use tip_metro_drip_ecommerce.Inventory.Soundness.{reserved_at, on_hand_at}
use tip_metro_drip_ecommerce.Inventory.Provider.{StockError, in_group}
use tip_metro_drip_ecommerce.Inventory.Adjust.{total_moved}
use tip_metro_drip_ecommerce.Inventory.Adjust.Refunds.{IsCovered, restore_order_stock-IsCovered}
use tip_metro_drip_ecommerce.Inventory.Reserve.Effects.{
  requested, reserve_lines_effect, reserve_lines_retry,
}
use tip_metro_drip_ecommerce.Inventory.Atomicity.{operations-IsAllOrNothing}
use tip_metro_drip_ecommerce.Inventory.Soundness.{held, moved, IsSound}
use tip_metro_drip_ecommerce.Inventory.Provider.{Line, Env, sorted}
use tip_metro_drip_ecommerce.Inventory.Reserve.{reserve_stock, reserve_lines}
use tip_metro_drip_ecommerce.Inventory.Settle.{
  commit_reservation, commit_holds, release_expired_reservations,
}
use tip_metro_drip_ecommerce.Inventory.Adjust.{adjust_stock, restore_order_stock}
use tip_metro_drip_ecommerce.Inventory.History.{Request, serve_all, serve_all-IsSound}

abbrev is_one : List Line → Bool
is_one [] = false
is_one (l ∷ []) = true
is_one (l ∷ m ∷ ls) = false

-- A clock at 1000 seconds, holds of 15 minutes, and a stand-in for the two library functions.
abbrev env : Env
env = record {
  now = 1000;
  reservation_ttl_minutes = 15;
  sha256 = λ s. s;
  json_dumps = λ ls. if is_one ls then "one" else "many";
}

abbrev shelf : Ledger
shelf = record {
  stock =
      (7, record { qty_on_hand = 10; qty_reserved = 0; low_stock_threshold = 5 })
      ∷ (8, record { qty_on_hand = 3; qty_reserved = 0; low_stock_threshold = 5 })
      ∷ [];
  reservations = [];
  next_pk = 1;
  movements = [];
  keys = [];
}

abbrev line : ℕ → ℕ → Line
line v q = record { variant_id = v; qty = pos q }

abbrev cart : List Line
cart = line 8 2 ∷ line 7 4 ∷ []

-- One cart reserves and sells, another asks for too much, a third expires.
abbrev day : List (Env × Request)
day =
    (env, Request.reserve_cart "a" cart "" none)
    ∷ (env, Request.reserve_cart "b" cart "" none)
    ∷ (env, Request.commit_group "a" (some 1))
    ∷ (env, Request.reserve_one 8 (Value.int (pos 1)) "" none "c")
    ∷ (env, Request.sweep (some 5000))
    ∷ (env, Request.refund 1 "1" cart)
    ∷ []

abbrev opening : ℕ → ℤ
opening v = if v == 7 then pos 10 else if v == 8 then pos 3 else pos 0

shelf-IsSound : IsSound opening shelf
unfolding held moved ◌+ℤ◌
shelf-IsSound = record {
  covered = λ v. ground arith;
  within = λ v. ground arith;
  audited = λ v. ground arith;
}

day_ends : (serve_all day shelf).stock ≡ shelf.stock
unfolding serve_all reserve_lines reserve_stock commit_holds release_expired_reservations
    restore_order_stock sorted commit_reservation adjust_stock ◌+ℤ◌ ◌-ℤ◌
day_ends = refl

serve_all-IsSound_example : IsSound opening (serve_all day shelf)
serve_all-IsSound_example = serve_all-IsSound opening day shelf shelf-IsSound

-- Two units of SKU 8 went to order 1.
abbrev after_sale : Ledger
after_sale = record {
  stock = (8, record { qty_on_hand = 1; qty_reserved = 0; low_stock_threshold = 5 }) ∷ [];
  reservations = [];
  next_pk = 1;
  movements =
      record { variant_id = 8; delta = negsuc 1; reason = sale; ref_order_id = some 1 } ∷ [];
  keys = [];
}

after_sale-IsCovered : IsCovered (some 1) after_sale
unfolding total_moved ◌+ℤ◌
after_sale-IsCovered = record { at = λ v. ground arith }

restore_order_stock-IsCovered_example :
    IsCovered (some 1) (restore_order_stock env 1 "1" cart after_sale).1
restore_order_stock-IsCovered_example =
    restore_order_stock-IsCovered env 1 "1" cart after_sale after_sale-IsCovered

reserve_lines_effect_example :
    ((v : ℕ)
      → reserved_at v (reserve_lines env "a" cart "" none shelf).1.stock
        ≡ reserved_at v shelf.stock + requested v cart)
    × ((v : ℕ)
        → on_hand_at v (reserve_lines env "a" cart "" none shelf).1.stock
          ≡ on_hand_at v shelf.stock)
    × ((v : ℕ)
        → (requested v cart ≡ 0)
          ⊎ (reserved_at v (reserve_lines env "a" cart "" none shelf).1.stock
              ≤ on_hand_at v (reserve_lines env "a" cart "" none shelf).1.stock))
    × ((reserve_lines env "a" cart "" none shelf).1.movements ≡ shelf.movements)
unfolding reserve_lines reserve_stock sorted ◌-ℤ◌
reserve_lines_effect_example = reserve_lines_effect env "a" cart "" none shelf refl refl

reserve_lines_retry_example :
    reserve_lines
      (record env { now = 1060 })
      "a"
      cart
      "other"
      none
      (reserve_lines env "a" cart "" none shelf).1
    ≡ (
      ok (select (in_group "a") (reserve_lines env "a" cart "" none shelf).1.reservations),
      (reserve_lines env "a" cart "" none shelf).1,
    )
unfolding reserve_lines reserve_stock sorted ◌-ℤ◌
reserve_lines_retry_example = reserve_lines_retry env "a" cart 1060 "" "other" none none shelf refl

-- SKU 7 suffices for the cart, SKU 8 does not.
abbrev short : Ledger
short = record shelf {
  stock =
      (7, record { qty_on_hand = 10; qty_reserved = 0; low_stock_threshold = 5 })
      ∷ (8, record { qty_on_hand = 1; qty_reserved = 0; low_stock_threshold = 5 })
      ∷ [];
}

operations-IsAllOrNothing_example : (reserve_lines env "b" cart "" none short).1 ≡ short
unfolding reserve_lines reserve_stock sorted ◌-ℤ◌
operations-IsAllOrNothing_example =
    (operations-IsAllOrNothing env).1 "b" cart "" none short StockError.insufficient_stock refl
