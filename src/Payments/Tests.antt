-- ===== src/Payments/Tests.antt =====
-- Payments over a ledger that is the list of the groups that it has sold, and instances of the
-- theorems.
use tip_metro_drip_ecommerce.Base.{
  ℕ, ◌≡◌, refl, subst, inl, inr, ◌⊎◌, String, true, false, none, some, List, [], ◌∷◌, lookup,
  insert,
}
use tip_metro_drip_ecommerce.Base.Action.{ok, err}
use tip_metro_drip_ecommerce.Orders.{OrderStatus, order_status, allowed, Columns, Row, Instance}
use tip_metro_drip_ecommerce.Orders.Write.{transition_to}
use tip_metro_drip_ecommerce.Orders.Write.Moves.{moved}
use tip_metro_drip_ecommerce.Outbox.{enqueue}
use tip_metro_drip_ecommerce.Checkout.Saga.{
  StockFailure, StockHold, StockHoldState, StockLedger, Shop,
}
use tip_metro_drip_ecommerce.Checkout.Saga as Saga
use tip_metro_drip_ecommerce.Payments.{
  PaymentMethod, PaymentStatus, Payment, PaymentError, StockRoom, Books,
}
use tip_metro_drip_ecommerce.Payments.Holds.{
  Env, mark_active, has_unknown, add_all, enqueue_task, deliver_order_stock, attempt,
  reconcile_unknown_holds,
}
use tip_metro_drip_ecommerce.Payments.Holds.Delivery.{doubts, deliver_order_stock-doubts}
use tip_metro_drip_ecommerce.Payments.Holds.Reconcile.{
  settle_first, unknown_within, reconcile_unknown_holds_lem,
}
use tip_metro_drip_ecommerce.Payments.Holds.Sells.{Sales}
use tip_metro_drip_ecommerce.Payments.Simulated.{
  is_paid, payment_method, confirmed_row, confirm_order_paid, create_checkout_session,
}
use tip_metro_drip_ecommerce.Payments.Simulated.Replay.{confirm_order_paid_replay}
use tip_metro_drip_ecommerce.Payments.Simulated.Confirmed.{confirm_order_paid_lem}

abbrev Listed : String → List String → Type 0
Listed c [] = ⊥
Listed c (x ∷ xs) = (c ≡ x) ⊎ Listed c xs

-- Every group holds two units of SKU 7.
abbrev room : StockRoom (List String)
room = record {
  reserve_lines = λ c d u. (ok tt, u);
  commit_holds = λ c order_no k u. (ok ((7, 2) ∷ []), c ∷ u);
}

-- A ledger whose answers are lost.
abbrev deaf : StockRoom (List String)
deaf = record {
  reserve_lines = λ c d u. (err StockFailure.reservation_unavailable, u);
  commit_holds = λ c order_no k u. (err StockFailure.reservation_unavailable, c ∷ u);
}

abbrev clock : Env
clock = record { now = 100; str = λ k. "n" }

abbrev columns : Columns
columns = record { order_no = "MD-2026-00001"; subtotal = 39800; shipping_fee = 0; total = 39800 }

abbrev order : Instance
order = record { adding = false; pk = 1; columns = columns; status = "pending" }

abbrev row : Row
row = record { columns = columns; status = OrderStatus.pending }

-- Order 1 asks for three units of SKU 7 and holds two of them.
abbrev books : Books (List String)
books = record {
  ledger = [];
  orders = record { rows = (1, row) ∷ []; next_pk = 2; pushes = [] };
  items = record { order_id = 1; variant_id = 7; qty = 3; unit_price_snapshot = 19900 } ∷ [];
  holds = record { order_id = 1; checkout_id = "c"; state = StockHoldState.active } ∷ [];
  payments = [];
  outbox = [];
  next_message = 1;
}

abbrev pending_payment : Payment
pending_payment = record {
  provider_ref = some "sim_session_MD-2026-00001";
  method = PaymentMethod.card;
  status = PaymentStatus.pending;
  amount = 39800;
  paid_at = none;
}

-- The session is open.
abbrev opened : Books (List String)
opened = record books { payments = (1, pending_payment) ∷ [] }

opens : (create_checkout_session 1 columns books).1 ≡ opened
unfolding create_checkout_session
opens = refl

abbrev confirmed : Books (List String)
confirmed = (confirm_order_paid room clock order "gcash" opened).1

-- The group of the order and one replacement are sold, and both instructions are retired.
sells : confirmed.ledger ≡ "shortfall-n-n" ∷ "c" ∷ []
unfolding confirm_order_paid enqueue_task payment_method enqueue transition_to order_status allowed
    attempt deliver_order_stock mark_active has_unknown add_all
sells = refl

confirm_order_paid_replay_example :
    confirm_order_paid room clock order "card" confirmed ≡ (ok false, confirmed)
unfolding confirm_order_paid enqueue_task payment_method enqueue transition_to order_status allowed
    attempt deliver_order_stock mark_active has_unknown add_all
confirm_order_paid_replay_example =
    confirm_order_paid_replay room clock order order "gcash" "card" opened {b = true} refl refl

confirm_order_paid_lem_example :
    ((row : Row) × (lookup 1 opened.orders.rows ≡ some row)
      × (row.status ≡ OrderStatus.pending)
      × (confirmed.orders ≡ moved 1 row OrderStatus.paid opened.orders))
    × ((p : Payment) × (lookup 1 opened.payments ≡ some p)
        × (is_paid p.status ≡ false)
        × (confirmed.payments
            ≡ insert 1 (confirmed_row 100 (payment_method "gcash") p) opened.payments))
unfolding confirm_order_paid enqueue_task payment_method enqueue transition_to order_status allowed
    attempt deliver_order_stock mark_active has_unknown add_all
confirm_order_paid_lem_example = confirm_order_paid_lem room clock order "gcash" opened refl

-- The same order, paid.
abbrev paid_books : Books (List String)
paid_books = record opened {
  orders = record {
    rows = (1, record { columns = columns; status = OrderStatus.paid }) ∷ [];
    next_pk = 2;
    pushes = [];
  };
}

raises :
    (deliver_order_stock deaf clock 1 paid_books).0
    ≡ err (PaymentError.stock StockFailure.reservation_unavailable)
unfolding deliver_order_stock enqueue_task enqueue mark_active has_unknown add_all
raises = refl

deliver_order_stock-doubts_example :
    doubts (deliver_order_stock deaf clock 1 paid_books).1.holds ≡ doubts paid_books.holds
deliver_order_stock-doubts_example = deliver_order_stock-doubts deaf clock 1 paid_books

abbrev doubtful : Books (List String)
doubtful = record paid_books {
  holds =
      record { order_id = 1; checkout_id = "c"; state = StockHoldState.unknown }
      ∷ record { order_id = 2; checkout_id = "d"; state = StockHoldState.released }
      ∷ [];
}

reconcile_unknown_holds_lem_example :
    (t : Books (List String)) × (reconcile_unknown_holds room clock 100 doubtful
      ≡ (ok (unknown_within 100 doubtful.holds), t))
    × (t.holds ≡ settle_first 100 doubtful.holds)
    × (t.orders ≡ doubtful.orders)
reconcile_unknown_holds_lem_example =
    reconcile_unknown_holds_lem room clock (λ c o k u. ((7, 2) ∷ [], c ∷ u, refl)) 100 doubtful

-- The shop just after the order was built, with a ledger that refuses releases.
abbrev shop : Shop (List String)
shop = record {
  ledger = [];
  numbers = [];
  orders = books.orders;
  items = books.items;
  holds = books.holds;
}

abbrev refusing : StockLedger (List String)
refusing = record {
  reserve_lines = λ c d u. (ok tt, u);
  release_holds = λ c u. (err StockFailure.reservation_unavailable, u);
}

abbrev shop_env : Saga.Env
shop_env = record {
  checkout_id = "c";
  name = "Ana";
  email = "ana@example.com";
  zone_fee = some 0;
  prices = (7, 19900) ∷ [];
  year = 2026;
  ascii = λ _. "MD-2026-00001";
  fault_at = λ _. none;
  session = λ _. none;
}

-- The room lists the groups that it sold.
abbrev SoldTo : String → ℕ → List String → Type 0
SoldTo c k u = Listed c u

abbrev room_sales : Sales room SoldTo
room_sales = record {
  commits = λ c order_no k u e. subst (λ p. Listed c p.1) e (inl refl);
  keeps = λ c order_no k u sold. inr sold;
}
