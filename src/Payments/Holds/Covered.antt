-- ===== src/Payments/Holds/Covered.antt =====
-- apps/payments/holds.py: a paid order whose delivery returns has all its units, whatever became of its
-- holds.
use tip_metro_drip_ecommerce.Base.{ℕ, ◌≤◌, ◌≡◌, String, false, [], Dict, ◌==◌, ◌⊎◌}
use tip_metro_drip_ecommerce.Checkout.{quantity}
use tip_metro_drip_ecommerce.Checkout.Saga.{OrderItem}
use tip_metro_drip_ecommerce.Payments.{StockRoom, Books}
use tip_metro_drip_ecommerce.Payments.Holds.{Env, consumable}
use tip_metro_drip_ecommerce.Payments.Holds.Answers.{IsConsumed, IsReplaced}

abbrev Grows : Dict ℕ → Dict ℕ → Type 0
Grows d r = (w : ℕ) → quantity w d ≤ quantity w r

-- The item is of another order, or its units are among those that were committed.
abbrev pub IsCovered : ℕ → Dict ℕ → OrderItem → Type 0
IsCovered k r i = ((i.order_id == k) ≡ false) ⊎ (i.qty ≤ quantity i.variant_id r)

module _ {L : Type 0} (ops : StockRoom L) (env : Env) where
  -- The totals are what the ledger answered for the groups of the order, and replacements.
  abbrev pub IsBacked : ℕ → String → Books L → Dict ℕ → Type 0
  IsBacked k order_no s d =
      (sum : Dict ℕ) × IsConsumed ops env k order_no (consumable k s.holds) [] sum
      × IsReplaced ops env k order_no sum d
