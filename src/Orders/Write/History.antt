-- ===== src/Orders/Write/History.antt =====
-- Histories of ORM calls: where an order can end up, and what it must have gone through.
use tip_metro_drip_ecommerce.Base.{ℕ, String, Bool, true, false, List, [], ◌∷◌, not, ◌&&◌, ◌==◌}
use tip_metro_drip_ecommerce.Orders.{
  OrderStatus, pending, paid, packed, shipped, delivered, cancelled, refunded, Columns, Instance,
  Table,
}
use tip_metro_drip_ecommerce.Orders.Write.{
  UpdateFields, Conflicts, save, transition_to, bulk_update, bulk_create,
}
use tip_metro_drip_ecommerce.Orders.Database.{delete_rows}
use tip_metro_drip_ecommerce.Orders.Write.Created.{has}

-- A call of the ORM.
pub data Request : Type 0 where
  save_one : Instance → UpdateFields → Request
  transition : Instance → String → Request
  update_many : Bool → (ℕ → Columns → Columns) → List ℕ → Request
  create_many : Conflicts → List Instance → Request
  delete_many : List ℕ → Request

-- The table that a call leaves, whether it returned or raised.
pub serve : Request → Table → Table
serve (save_one o f) t = (save o f t).1
serve (transition o s) t = (transition_to o s t).1
serve (update_many named change ks) t = (bulk_update named change ks t).1
serve (create_many conflicts os) t = (bulk_create conflicts os t).1
serve (delete_many ks) t = (delete_rows ks t).1

-- The request neither deletes this order nor saves a new instance that carries its key, which `save`
-- lets overwrite the row.
abbrev pub respects : ℕ → Request → Bool
respects k (save_one o f) = not (o.adding && o.pk == k)
respects k (transition o s) = true
respects k (update_many named change ks) = true
respects k (create_many conflicts os) = true
respects k (delete_many ks) = not (has ks k)

unfoldable pub serve_all : List Request → Table → Table
unfolding serve
serve_all [] t = t
serve_all (r ∷ rs) t = serve_all rs (serve r t)

abbrev pub is_final : OrderStatus → Bool
is_final pending = false
is_final paid = false
is_final packed = false
is_final shipped = false
is_final delivered = false
is_final cancelled = true
is_final refunded = true
