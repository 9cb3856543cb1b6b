-- ===== src/Orders/Tests.antt =====
-- Runs of the order table and of the number allocator, and instances of the theorems.
use tip_metro_drip_ecommerce.Base.{
  ◌≡◌, refl, true, false, none, some, List, [], ◌∷◌, int, pos, String,
}
use tip_metro_drip_ecommerce.Base.Action.{ok}
use tip_metro_drip_ecommerce.Orders.{pending, paid, refunded, Columns, Instance, Table}
use tip_metro_drip_ecommerce.Orders.Write.{
  everything, refuse, save, transition_to, bulk_create, insert_row,
}
use tip_metro_drip_ecommerce.Orders.Database.{delete_rows}
use tip_metro_drip_ecommerce.Orders.Write.Lifecycle.{status_at}
use tip_metro_drip_ecommerce.Orders.Write.History.{Request, serve_all}
use tip_metro_drip_ecommerce.Orders.Number.{order_no, next_order_no}
use tip_metro_drip_ecommerce.Orders.Number.Unique.{
  issue, issue-Apart, Apart, read_no, read_no-order_no,
}
use tip_metro_drip_ecommerce.Base.{arith}

abbrev columns : Columns
columns = record {
  order_no = "MD-2026-00001";
  subtotal = 90000;
  shipping_fee = 9900;
  total = 99900;
}

abbrev order : String → Instance
order status = record { adding = false; pk = 1; columns = columns; status = status }

abbrev table : Table
table = record {
  rows = (1, record { columns = columns; status = pending }) ∷ [];
  next_pk = 2;
  pushes = [];
}

abbrev other : Columns
other = record columns { order_no = "MD-2026-00002" }

-- Paid and refunded; the rest is refused: a skipped step, an assigned status, a way back. Another
-- order is created and deleted.
abbrev calls : List Request
calls =
    Request.transition (order "pending") "delivered"
    ∷ Request.save_one (order "paid") everything
    ∷ Request.transition (order "pending") "paid"
    ∷ Request.transition (order "pending") "refunded"
    ∷ Request.transition (order "refunded") "paid"
    ∷ Request.create_many refuse
        (record { adding = true; pk = 0; columns = other; status = "pending" } ∷ [])
    ∷ Request.delete_many (2 ∷ [])
    ∷ []

calls_end : (serve_all calls table).pushes ≡ (1, paid) ∷ (1, refunded) ∷ []
unfolding serve_all save transition_to bulk_create delete_rows insert_row
calls_end = refl

first_number : next_order_no 2026 none [] ≡ (ok (order_no 2026 1), (2026, 1) ∷ [])
unfolding next_order_no
first_number = refl

issue-Apart_example :
    Apart (issue ((2026, none) ∷ (2026, some (int (pos 2027))) ∷ (2027, none) ∷ []) [])
issue-Apart_example =
    issue-Apart ((2026, none) ∷ (2026, some (int (pos 2027))) ∷ (2027, none) ∷ []) []

read_no-order_no_example : read_no (order_no 2026 123) ≡ (2026, 123)
read_no-order_no_example = read_no-order_no 2026 123 (omega arith) (omega arith)

-- A new instance that carries the key of a refunded order takes it back to Pending.
resurrected :
    status_at 1 (
      serve_all
        (Request.save_one (record (order "pending") { adding = true }) everything ∷ [])
        (serve_all calls table))
    ≡ some pending
unfolding serve_all save transition_to bulk_create delete_rows insert_row
resurrected = refl
