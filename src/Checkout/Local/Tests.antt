-- ===== src/Checkout/Local/Tests.antt =====
-- Checkouts over the in-process provider, and instances of the theorems.
use tip_metro_drip_ecommerce.Base.{
  ◌⊎◌, ℕ, ℤ, pos, ◌+◌, ◌≤◌, ◌+ℤ◌, ◌≡◌, refl, none, some, List, [], ◌∷◌, arith, select, length,
  if◌then◌else◌, ◌==◌, ◌-ℤ◌,
}
use tip_metro_drip_ecommerce.Base.Action.{ok}
use tip_metro_drip_ecommerce.Inventory.{Ledger, ReservationStatus}
use tip_metro_drip_ecommerce.Inventory.Soundness.{held, moved, IsSound, reserved_at, on_hand_at}
use tip_metro_drip_ecommerce.Inventory.Provider.{Line, sorted}
use tip_metro_drip_ecommerce.Inventory.Provider as Provider
use tip_metro_drip_ecommerce.Inventory.Reserve.{reserve_lines}
use tip_metro_drip_ecommerce.Inventory.Settle.{pks, release_holds, release_reservation}
use tip_metro_drip_ecommerce.Inventory.Keyed.{KeyedRows, IsKeyed}
use tip_metro_drip_ecommerce.Inventory.Frees.{held_by, open_in}
use tip_metro_drip_ecommerce.Inventory.Frees.Loop.{release_holds_frees}
use tip_metro_drip_ecommerce.Orders.{order_status, allowed}
use tip_metro_drip_ecommerce.Orders.Write.{insert_row, initial_status, transition_to}
use tip_metro_drip_ecommerce.Orders.Number.{next_order_no, order_no}
use tip_metro_drip_ecommerce.Checkout.{CartLine, parse_items}
use tip_metro_drip_ecommerce.Checkout.Cart.{units_asked}
use tip_metro_drip_ecommerce.Checkout.Saga.{Failure, Shop, Env, place_order, build_order}
use tip_metro_drip_ecommerce.Checkout.Local.{Stocked, local_provider, held_for}
use tip_metro_drip_ecommerce.Checkout.Local.Laws.{place_order_frees}
use tip_metro_drip_ecommerce.Checkout.Local.Placed.{place_order_takes}

abbrev clock : Provider.Env
clock = record {
  now = 1000;
  reservation_ttl_minutes = 15;
  sha256 = λ s. s;
  json_dumps = λ ls. "lines";
}

-- Another checkout holds a unit of SKU 7.
abbrev shelf : Ledger
shelf = record {
  stock =
      (7, record { qty_on_hand = 10; qty_reserved = 1; low_stock_threshold = 5 })
      ∷ (8, record { qty_on_hand = 3; qty_reserved = 0; low_stock_threshold = 5 })
      ∷ [];
  reservations =
      record {
        pk = 1;
        variant_id = 7;
        qty = 1;
        status = ReservationStatus.active;
        session_key = "";
        checkout_id = "b";
        order_id = none;
        expires_at = 1900;
        ended_at = none;
      }
      ∷ [];
  next_pk = 2;
  movements = [];
  keys = [];
}

abbrev opening : ℕ → ℤ
opening v = if v == 7 then pos 10 else if v == 8 then pos 3 else pos 0

shelf-IsSound : IsSound opening shelf
unfolding held moved ◌+ℤ◌
shelf-IsSound = record {
  covered = λ v. ground arith;
  within = λ v. ground arith;
  audited = λ v. ground arith;
}

shelf-IsKeyed : IsKeyed shelf
unfolding KeyedRows
shelf-IsKeyed = record { rows = (omega arith, omega arith, refl, tt) }

abbrev shop : Shop (Stocked opening)
shop = record {
  ledger = record { tables = shelf; sound = shelf-IsSound; keyed = shelf-IsKeyed };
  numbers = [];
  orders = record { rows = []; next_pk = 1; pushes = [] };
  items = [];
  holds = [];
}

abbrev env : Env
env = record {
  checkout_id = "a";
  name = "Ana";
  email = "ana@example.com";
  zone_fee = some 5000;
  prices = (7, 19900) ∷ (8, 500) ∷ [];
  year = 2026;
  ascii = λ _. "MD-2026-00001";
  fault_at = λ _. none;
  session = λ _. some "https://pay";
}

abbrev line : ℕ → ℕ → CartLine
line v q = record { variant_id = some v; qty = some (pos q) }

abbrev cart : List CartLine
cart = line 8 1 ∷ line 7 4 ∷ line 8 2 ∷ []

abbrev unpaid : Env
unpaid = record env { session = λ _. none }

abbrev placed : Shop (Stocked opening)
placed = (place_order (local_provider clock "") env (some cart) shop).1

abbrev abandoned : Shop (Stocked opening)
abandoned = (place_order (local_provider clock "") unpaid (some cart) shop).1

release_holds_frees_example :
    (t : Ledger) × (release_holds clock "b" shelf
      ≡ (ok (length (pks (select (open_in "b") shelf.reservations))), t))
    × (held_by "b" t.reservations ≡ 0)
release_holds_frees_example =
    release_holds_frees opening clock "b" shelf shelf-IsSound shelf-IsKeyed

place_order_takes_example :
    (reserved_at 8 placed.ledger.tables.stock ≡ 0 + units_asked 8 cart)
    × ((units_asked 8 cart ≡ 0)
        ⊎ (reserved_at 8 placed.ledger.tables.stock ≤ on_hand_at 8 placed.ledger.tables.stock))
    × (on_hand_at 8 placed.ledger.tables.stock ≡ 3)
    × (placed.ledger.tables.movements ≡ [])
unfolding place_order build_order parse_items next_order_no insert_row initial_status order_status
    order_no reserve_lines sorted ◌-ℤ◌
place_order_takes_example = place_order_takes clock "" env cart shop refl refl 8

place_order_frees_example :
    (held_for "a" abandoned.ledger ≡ 0)
    × ((Failure.payment_session_error ≡ Failure.payment_session_error)
        ⊎ (abandoned ≡ record shop { ledger = abandoned.ledger }))
unfolding place_order build_order parse_items next_order_no insert_row initial_status order_status
    order_no transition_to allowed reserve_lines sorted release_holds release_reservation held_by
    ◌-ℤ◌
place_order_frees_example = place_order_frees clock "" unpaid (some cart) shop refl refl
