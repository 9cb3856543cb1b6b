-- ===== src/Checkout/Tests.antt =====
-- Checkouts against a ledger that is the list of the checkouts with stock, and sells everything but
-- variant 9.
use Prim.Native.String.{String}
use tip_metro_drip_ecommerce.Base.{
  ℕ, ◌+◌, ◌*◌, ◌≤◌, pos, ◌≡◌, refl, sym, ap, ◌∙◌, Dict, Bool, true, false, none, some, List, [],
  ◌∷◌, lookup, ltb, length, ◌==◌, if◌then◌else◌, str_eq, arith, Bool-cases, inl, inr,
}
use tip_metro_drip_ecommerce.Base.Action.{Result, ok, err}
use tip_metro_drip_ecommerce.Orders.{OrderStatus, order_status, allowed}
use tip_metro_drip_ecommerce.Orders.Write.{insert_row, initial_status, transition_to}
use tip_metro_drip_ecommerce.Orders.Number.{next_order_no, order_no}
use tip_metro_drip_ecommerce.Checkout.{
  CartLine, quantity, parse_items, max_checkout_lines, max_line_qty,
}
use tip_metro_drip_ecommerce.Checkout.Cart.{units_asked, parse_items_lem}
use tip_metro_drip_ecommerce.Checkout.Saga.{
  StockFailure, Failure, Fault, StockLedger, Shop, Env, place_order, build_order,
}
use tip_metro_drip_ecommerce.Checkout.Saga.{all_priced}
use tip_metro_drip_ecommerce.Checkout.Saga.Placed.{IsPlaced, place_order-IsPlaced}
use tip_metro_drip_ecommerce.Checkout.Saga.{abandon, order_columns, StockHoldState}
use tip_metro_drip_ecommerce.Checkout.Saga.Receipts.{Tells, abandon-Tells}
use tip_metro_drip_ecommerce.Checkout.Saga.Steps.{IsStockLedger}
use tip_metro_drip_ecommerce.Checkout.Saga.Compensation.{IsUndone, place_order-IsUndone}

abbrev without : String → List String → List String
without c [] = []
without c (x ∷ xs) = if str_eq x c then without c xs else x ∷ without c xs

abbrev count : String → List String → ℕ
count c [] = 0
count c (x ∷ xs) = (if str_eq x c then 1 else 0) + count c xs

abbrev desk : StockLedger (List String)
desk = record {
  reserve_lines = λ c d u.
      if ltb 0 (quantity 9 d) then (err StockFailure.insufficient_stock, u) else (ok tt, c ∷ u);
  release_holds = λ c u. (ok tt, without c u);
}

count-without : (c : String) (u : List String) → count c (without c u) ≡ 0
count-without c [] = refl
count-without c (x ∷ xs) = elim (Bool-cases (str_eq x c)) [
  | inl e ↦ rw e (count-without c xs)
  | inr e ↦ rw (e, e, count-without c xs) (omega arith)
]

desk_refuses :
    (c : String) (b : Bool) (u v : List String) (e : StockFailure)
    → ◌≡◌ {A = Result StockFailure (Unit {0}) × List String}
        (if b then (err StockFailure.insufficient_stock, u) else (ok tt, c ∷ u))
        (err e, v)
    → count c v ≡ count c u
desk_refuses c true u v e q =
    sym (ap (λ (p : Result StockFailure (Unit {0}) × List String). count c p.1) q)
desk_refuses c false u v e q = cc

desk-IsStockLedger : IsStockLedger desk count
desk-IsStockLedger = record {
  all_or_nothing = λ c d u v e _ q. desk_refuses c (ltb 0 (quantity 9 d)) u v e q;
  gives_back = λ c u v q.
      sym (ap (λ (p : Result StockFailure (Unit {0}) × List String). count c p.1) q)
      ∙ count-without c u;
}

abbrev shop : Shop (List String)
shop = record {
  ledger = "other" ∷ [];
  numbers = [];
  orders = record { rows = []; next_pk = 1; pushes = [] };
  items = [];
  holds = [];
}

abbrev env : Env
env = record {
  checkout_id = "c";
  name = "Ana";
  email = "ana@example.com";
  zone_fee = some 5000;
  prices = (3, 19900) ∷ (4, 500) ∷ [];
  year = 2026;
  ascii = λ _. "MD-2026-00001";
  fault_at = λ k. if k == 1 then some Fault.deadlock else none;
  session = λ _. some "https://pay";
}

abbrev line : ℕ → ℕ → CartLine
line v q = record { variant_id = some v; qty = some (pos q) }

abbrev cart : List CartLine
cart = line 3 2 ∷ line 4 1 ∷ line 3 1 ∷ []

abbrev unpaid : Env
unpaid = record env { session = λ _. none }

places : (place_order desk env (some cart) shop).0 ≡ ok (1, "https://pay")
unfolding place_order build_order parse_items next_order_no insert_row initial_status order_status
    order_no
places = refl

cancels :
    lookup 1 (place_order desk unpaid (some cart) shop).1.orders.rows
    ≡ some (record {
      columns = record {
        order_no = "MD-2026-00001";
        subtotal = 60200;
        shipping_fee = 5000;
        total = 65200;
      };
      status = OrderStatus.cancelled;
    })
unfolding place_order build_order parse_items next_order_no insert_row initial_status order_status
    order_no transition_to allowed
cancels = refl

place_order-IsUndone_example :
    IsUndone desk count desk-IsStockLedger unpaid shop Failure.payment_session_error
      (place_order desk unpaid (some cart) shop).1
unfolding place_order build_order parse_items next_order_no insert_row initial_status order_status
    order_no transition_to allowed
place_order-IsUndone_example =
    place_order-IsUndone desk count desk-IsStockLedger unpaid (some cart) shop refl refl

parse_items_lem_example :
    (length cart ≤ max_checkout_lines)
    × ((v : ℕ)
        → (quantity v ((3, 3) ∷ (4, 1) ∷ []) ≡ units_asked v cart)
          × (quantity v ((3, 3) ∷ (4, 1) ∷ []) ≤ max_line_qty * max_checkout_lines))
unfolding parse_items
parse_items_lem_example = parse_items_lem cart refl

place_order-IsPlaced_example :
    (d : Dict ℕ) × (fee : ℕ) × (parse_items (some cart) ≡ some d)
    × (env.zone_fee ≡ some fee)
    × (all_priced env.prices d ≡ true)
    × IsPlaced desk env d fee shop (1, "https://pay") (place_order desk env (some cart) shop).1
unfolding place_order build_order parse_items next_order_no insert_row initial_status order_status
    order_no
place_order-IsPlaced_example = place_order-IsPlaced desk env (some cart) shop refl

abandon-Tells_example :
    (t : Shop (List String)) × (abandon desk unpaid 1
        (order_columns unpaid ((3, 3) ∷ (4, 1) ∷ []) 5000 "MD-2026-00001")
        (record shop {
          ledger = "c" ∷ [];
          holds = record { order_id = 1; checkout_id = "c"; state = StockHoldState.active } ∷ [];
        })
      ≡ (err Failure.payment_session_error, t))
    × Tells desk count desk-IsStockLedger unpaid 1
        (record shop {
          ledger = "c" ∷ [];
          holds = record { order_id = 1; checkout_id = "c"; state = StockHoldState.active } ∷ [];
        })
        t
    × (t.items ≡ [])
    × (t.numbers ≡ [])
abandon-Tells_example =
    abandon-Tells desk count desk-IsStockLedger unpaid 1
      (order_columns unpaid ((3, 3) ∷ (4, 1) ∷ []) 5000 "MD-2026-00001")
      (record shop {
        ledger = "c" ∷ [];
        holds = record { order_id = 1; checkout_id = "c"; state = StockHoldState.active } ∷ [];
      })
