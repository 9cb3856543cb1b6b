-- ===== src/Shipping/Tests.antt =====
-- A status update of a courier.
use tip_metro_drip_ecommerce.Base.{◌≡◌, ◌⊎◌, String, str_eq, if◌then◌else◌, [], ◌∷◌}
use tip_metro_drip_ecommerce.Orders.{OrderStatus}
use tip_metro_drip_ecommerce.Shipping.{
  ShipmentStatus, Desk, Parsed, Env, WebRequest, courier_webhook,
}
use tip_metro_drip_ecommerce.Shipping.Effects.{IsIgnored, IsApplied, courier_webhook_lem}

abbrev loaded : String → Parsed
loaded body =
    if str_eq body "{waybill_no: JT-1, status: delivered}"
    then Parsed.fields "JT-1" "delivered"
    else Parsed.malformed

abbrev env : Env
env = record {
  secret = "secret";
  hexdigest = λ secret body. "signed";
  loads = loaded;
  strip = λ s. s;
  lower = λ s. s;
  underscored = λ s. s;
}

abbrev update : WebRequest
update = record { signature = "signed"; body = "{waybill_no: JT-1, status: delivered}" }

-- A shipment on its way, of an order that has shipped.
abbrev desk : Desk
desk = record {
  shipments =
      (4, record { order_id = 1; waybill_no = "JT-1"; status = ShipmentStatus.out_for_delivery })
      ∷ [];
  orders = record {
    rows =
        (
          1,
          record {
            columns = record {
              order_no = "MD-2026-00001";
              subtotal = 900;
              shipping_fee = 100;
              total = 1000;
            };
            status = OrderStatus.shipped;
          },
        )
        ∷ [];
    next_pk = 2;
    pushes = [];
  };
  pushes = [];
}

courier_webhook_lem_example :
    ((IsIgnored env update desk × ((courier_webhook env update desk).1 ≡ desk))
      ⊎ IsApplied env update 4 desk (courier_webhook env update desk).1)
    × ((courier_webhook env update (courier_webhook env update desk).1).1
        ≡ (courier_webhook env update desk).1)
courier_webhook_lem_example = courier_webhook_lem env update 4 desk
