-- ===== src/Refunds.antt =====
-- apps/orders/refunds.py: `deliver_refund`, the handler of the outbox that gives a refunded order's
-- stock back, over the in-process provider.
pub mod Again
mod Tests
use tip_metro_drip_ecommerce.Base.{ℕ, String, List, [], ◌∷◌}
use tip_metro_drip_ecommerce.Base.Action.{pure, ◌>>◌, ◌>>=◌}
use tip_metro_drip_ecommerce.Inventory.Provider.{Call, Env, Line}
use tip_metro_drip_ecommerce.Inventory.Settle.{release_holds}
use tip_metro_drip_ecommerce.Inventory.Adjust.{restore_order_stock}

-- The payload of the message; `order_text` is `str(order_id)`.
pub record RefundPayload : Type 0 where
  pub order_id : ℕ
  pub order_text : String
  pub lines : List Line
  pub checkout_ids : List String

unfoldable pub release_groups : Env → List String → Call (Unit {0})
release_groups env [] = pure tt
release_groups env (c ∷ cs) = release_holds env c >> release_groups env cs

unfoldable pub deliver_refund : Env → RefundPayload → Call (Unit {0})
unfolding release_groups
deliver_refund env p =
    release_groups env p.checkout_ids >> restore_order_stock env p.order_id p.order_text p.lines
