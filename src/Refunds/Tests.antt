-- ===== src/Refunds/Tests.antt =====
-- A refund of a sale, and an instance of the theorem.
use tip_metro_drip_ecommerce.Base.{pos, neg_ℤ, ◌+ℤ◌, ◌-ℤ◌, ◌≡◌, refl, none, some, List, [], ◌∷◌}
use tip_metro_drip_ecommerce.Inventory.{Ledger, sale}
use tip_metro_drip_ecommerce.Inventory.Provider.{Env, sorted}
use tip_metro_drip_ecommerce.Inventory.Settle.{release_holds}
use tip_metro_drip_ecommerce.Inventory.Adjust.{adjust_stock, restore_order_stock}
use tip_metro_drip_ecommerce.Inventory.History.{Request, serve_all}
use tip_metro_drip_ecommerce.Refunds.{RefundPayload, release_groups, deliver_refund}
use tip_metro_drip_ecommerce.Refunds.Again.{deliver_refund_again}

abbrev env : Env
env = record {
  now = 1000;
  reservation_ttl_minutes = 15;
  sha256 = λ s. s;
  json_dumps = λ ls. "lines";
}

-- Two units of SKU 7 were sold to order 1.
abbrev after_sale : Ledger
after_sale = record {
  stock = (7, record { qty_on_hand = 8; qty_reserved = 0; low_stock_threshold = 5 }) ∷ [];
  reservations = [];
  next_pk = 1;
  movements = record { variant_id = 7; delta = neg_ℤ 2; reason = sale; ref_order_id = some 1 } ∷ [];
  keys = [];
}

abbrev payload : RefundPayload
payload = record {
  order_id = 1;
  order_text = "1";
  lines = record { variant_id = 7; qty = pos 2 } ∷ [];
  checkout_ids = "checkout" ∷ [];
}

abbrev given_back : Ledger
given_back = (deliver_refund env payload after_sale).1

-- A sweep runs before the second delivery.
abbrev between : List (Env × Request)
between = (env, Request.sweep none) ∷ []

deliver_refund_again_example :
    (deliver_refund (record env { now = 2000 }) payload (serve_all between given_back)).1
    ≡ (release_groups
        (record env { now = 2000 })
        ("checkout" ∷ [])
        (serve_all between given_back)).1
unfolding deliver_refund release_holds restore_order_stock sorted ◌-ℤ◌ ◌+ℤ◌ adjust_stock
deliver_refund_again_example =
    deliver_refund_again env 2000 payload between after_sale {a = tt} {t = given_back} refl
