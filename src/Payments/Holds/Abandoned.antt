-- ===== src/Payments/Holds/Abandoned.antt =====
-- apps/orders/checkout.py and apps/payments/holds.py together: the receipt of a checkout whose payment
-- session failed, once the sweep has seen it.
use tip_metro_drip_ecommerce.Base.{ℕ, ◌≡◌, String, false, List, Dict, ◌==◌, ◌⊎◌}
use tip_metro_drip_ecommerce.Base.Action.{ok}
use tip_metro_drip_ecommerce.Outbox.{Message}
use tip_metro_drip_ecommerce.Checkout.Saga.{
  StockHold, StockHoldState, committed, StockLedger, Shop, Saga,
}
use tip_metro_drip_ecommerce.Checkout.Saga as Saga
use tip_metro_drip_ecommerce.Payments.{Payment, Task, StockRoom, Books}
use tip_metro_drip_ecommerce.Payments.Holds.{Env}
use tip_metro_drip_ecommerce.Payments.Holds.Sells.{Sales}

-- A receipt of another order, or a committed one whose group is sold.
abbrev pub IsSold : {L : Type 0} → (String → ℕ → L → Type 0) → L → ℕ → StockHold → Type 0
IsSold Sold u k h =
    ((h.order_id == k) ≡ false) ⊎ ((h.state ≡ committed) × Sold h.checkout_id h.order_id u)

module _ {L : Type 0} (ledger : StockLedger L) (shop_env : Saga.Env) (room : StockRoom L)
    (env : Env)
    (answers : (c order_no : String) (k : ℕ) (u : L)
      → (r : Dict ℕ) × (v : L) × (room.commit_holds c order_no k u ≡ (ok r, v)))
    {Sold : String → ℕ → L → Type 0} (sales : Sales room Sold) where
  -- The tables of Orders as a payment sees them.
  abbrev books_of : Shop L → Dict Payment → List (Message Task) → ℕ → Books L
  books_of s payments outbox next = record {
    ledger = s.ledger;
    orders = s.orders;
    items = s.items;
    holds = s.holds;
    payments = payments;
    outbox = outbox;
    next_message = next;
  }
