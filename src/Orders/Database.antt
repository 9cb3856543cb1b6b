-- ===== src/Orders/Database.antt =====
-- The writes that the database does for the ORM on the table of orders.
use tip_metro_drip_ecommerce.Base.{
  ℕ, ◌+◌, max, String, Bool, false, not, ◌||◌, List, [], ◌∷◌, ◌++◌, Dict, lookup, insert, str_eq,
  ◌==◌, if◌then◌else◌,
}
use tip_metro_drip_ecommerce.Base.Action.{
  Action, pure, gets, or_raise, ◌>>=◌, ◌>>◌, modify, raise_if,
}
use tip_metro_drip_ecommerce.Orders.{
  OrderStatus, text, Columns, Row, Table, OrderError, does_not_exist, integrity_error, reconciles,
}

abbrev pub Call : Type 0 → Type 0
Call = Action OrderError Table

abbrev pub is_pending : OrderStatus → Bool
is_pending s = str_eq (text s) "pending"

abbrev pub number_taken : String → Dict Row → Bool
number_taken n [] = false
number_taken n ((k, r) ∷ rs) = str_eq r.columns.order_no n || number_taken n rs

abbrev pub put_row : ℕ → Row → Table → Table
put_row k r t = record t { rows = insert k r t.rows }

-- INSERT: the database checks the unique number and that the total reconciles.
unfoldable pub insert_row : Columns → OrderStatus → Call ℕ
insert_row c status = do
  taken ← gets (λ t. number_taken c.order_no t.rows)
  raise_if (taken || not (reconciles c)) integrity_error
  k ← gets (λ t. t.next_pk)
  modify (λ t. record t {
    rows = t.rows ++ (k, record { columns = c; status = status }) ∷ [];
    next_pk = t.next_pk + 1;
  })
  pure k

-- UPDATE of columns other than the status.
unfoldable pub update_columns : ℕ → (Columns → Columns) → Call (Unit {0})
update_columns k change = do
  row ← or_raise does_not_exist (← gets (λ t. lookup k t.rows))
  raise_if (not (reconciles (change row.columns))) integrity_error
  modify (put_row k (record row { columns = change row.columns }))

-- INSERT under a key that the instance carries.
unfoldable pub insert_at : ℕ → Columns → OrderStatus → Call (Unit {0})
insert_at k c status = do
  taken ← gets (λ t. number_taken c.order_no t.rows)
  raise_if (taken || not (reconciles c)) integrity_error
  modify (λ t. record t {
    rows = t.rows ++ (k, record { columns = c; status = status }) ∷ [];
    next_pk = max t.next_pk (k + 1);
  })

-- The rows of other keys.
unfoldable pub others : ℕ → Dict Row → Dict Row
others k [] = []
others k ((j, r) ∷ rs) = if j == k then others k rs else (j, r) ∷ others k rs

-- UPDATE of a whole row, its status with it.
unfoldable pub overwrite_row : ℕ → Row → Call (Unit {0})
unfolding others
overwrite_row k new = do
  taken ← gets (λ t. number_taken new.columns.order_no (others k t.rows))
  raise_if (taken || not (reconciles new.columns)) integrity_error
  modify (put_row k new)

abbrev pub delete_each : List ℕ → Dict Row → Dict Row
delete_each [] rows = rows
delete_each (k ∷ ks) rows = others k (delete_each ks rows)

-- `delete()` of an order or of a QuerySet, which `Order` inherits from Django; the rows that refer to
-- the orders are apart.
unfoldable pub delete_rows : List ℕ → Call (Unit {0})
unfolding others
delete_rows ks = modify (λ t. record t { rows = delete_each ks t.rows })
