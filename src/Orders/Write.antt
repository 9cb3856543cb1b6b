-- ===== src/Orders/Write.antt =====
-- apps/orders/models.py: every way through the ORM to write an order, `Order.save`,
-- `Order.transition_to` and the bulk calls of `OrderQuerySet`.
pub mod Lifecycle
pub mod Created
pub mod Moves
pub mod History
use tip_metro_drip_ecommerce.Base.{
  ℕ, ◌+◌, String, Bool, true, false, not, ◌&&◌, ◌||◌, Option, none, some, List, [], ◌∷◌, ◌++◌, Dict,
  lookup, insert, str_eq, ◌==◌, if◌then◌else◌,
}
use tip_metro_drip_ecommerce.Base.Action.{
  Action, ok, err, pure, raise, gets, or_raise, atomic, ◌>>=◌, ◌>>◌, modify, raise_if,
}
use tip_metro_drip_ecommerce.Orders.{
  OrderStatus, pending, text, order_status, allowed, Columns, Row, Instance, Table, OrderError,
  illegal_transition, does_not_exist, integrity_error, value_error, database_error, reconciles,
}
use tip_metro_drip_ecommerce.Orders.Database.{insert_at, overwrite_row}
pub use tip_metro_drip_ecommerce.Orders.Database.{Call, is_pending, number_taken, put_row}
unfoldable pub use tip_metro_drip_ecommerce.Orders.Database.{insert_row, update_columns}

-- The status of a new order, which has to be recognised and Pending.
unfoldable pub initial_status : String → Call OrderStatus
unfolding order_status
initial_status s = do
  status ← or_raise illegal_transition (order_status s)
  raise_if (not (is_pending status)) illegal_transition
  pure status

-- `update_fields`: absent, or a list that names the status or not and picks columns.
pub data UpdateFields : Type 0 where
  everything : UpdateFields
  fields : Bool → (Columns → Columns → Columns) → UpdateFields

-- The stored status is compared under the row's lock.
pub locked_save : Instance → (Columns → Columns) → Call (Unit {0})
unfolding update_columns
locked_save o change = atomic (do
  row ← or_raise does_not_exist (← gets (λ t. lookup o.pk t.rows))
  raise_if (not (str_eq o.status (text row.status))) illegal_transition
  update_columns o.pk change)

pub save_existing : Instance → UpdateFields → Call (Unit {0})
unfolding locked_save update_columns
save_existing o everything = locked_save o (λ _. o.columns)
save_existing o (fields names_status pick) =
    if names_status
    then locked_save o (λ c. pick c o.columns)
    else update_columns o.pk (λ c. pick c o.columns)

-- `Model.save` of a new instance without a key, which has no row for a list of fields to update.
pub insert_new : Instance → OrderStatus → UpdateFields → Call (Unit {0})
unfolding insert_row
insert_new o status everything = insert_row o.columns status >> pure tt
insert_new o status (fields names_status pick) = raise value_error

-- `Model.save` of a new instance that carries a key: an UPDATE of the row with this key, of the status
-- too, and an INSERT only if there is none.
pub save_keyed : Instance → OrderStatus → UpdateFields → Option Row → Call (Unit {0})
unfolding insert_at overwrite_row
save_keyed o status everything none = insert_at o.pk o.columns status
save_keyed o status everything (some row) =
    overwrite_row o.pk (record { columns = o.columns; status = status })
save_keyed o status (fields names_status pick) none = raise database_error
save_keyed o status (fields names_status pick) (some row) = overwrite_row o.pk (record {
  columns = pick row.columns o.columns;
  status = if names_status then status else row.status;
})

pub save_new : Instance → UpdateFields → OrderStatus → Call (Unit {0})
unfolding insert_new save_keyed
save_new o update_fields status =
    if o.pk == 0
    then insert_new o status update_fields
    else (gets (λ t. lookup o.pk t.rows) >>= save_keyed o status update_fields)

-- `Order.save`
unfoldable pub save : Instance → UpdateFields → Call (Unit {0})
unfolding initial_status save_new save_existing
save o update_fields =
    if o.adding
    then (initial_status o.status >>= save_new o update_fields)
    else save_existing o update_fields

-- The validated, locked write of `transition_to`.
pub transition_row : ℕ → OrderStatus → Call (Unit {0})
unfolding allowed
transition_row k target = do
  row ← or_raise does_not_exist (← gets (λ t. lookup k t.rows))
  raise_if (not (allowed row.status target)) illegal_transition
  modify (put_row k (record row { status = target }))

-- `Order.transition_to`: the push is sent once the transaction has committed.
unfoldable pub transition_to : Instance → String → Call Instance
unfolding transition_row order_status
transition_to o new_status = do
  raise_if o.adding illegal_transition
  target ← or_raise illegal_transition (order_status new_status)
  atomic (transition_row o.pk target)
  modify (λ t. record t { pushes = t.pushes ++ (o.pk, target) ∷ [] })
  pure (record o { status = text target })

pub update_each : (ℕ → Columns → Columns) → List ℕ → Call (Unit {0})
unfolding update_columns
update_each change [] = pure tt
update_each change (k ∷ ks) = update_columns k (change k) >> update_each change ks

-- `OrderQuerySet.update` and `bulk_update`: refused if the status is among the fields.
unfoldable pub bulk_update : Bool → (ℕ → Columns → Columns) → List ℕ → Call (Unit {0})
unfolding update_each
bulk_update names_status change ks = do
  raise_if names_status illegal_transition
  atomic (update_each change ks)

pub all_pending : List Instance → Bool
unfolding order_status
all_pending [] = true
all_pending (o ∷ os) =
    elim (order_status o.status) [ none ↦ false | some s ↦ is_pending s ] && all_pending os

-- What `bulk_create` does with a row that is there already: plain, `ignore_conflicts`, or
-- `update_conflicts` with a list of fields.
pub data Conflicts : Type 0 where
  refuse ignore : Conflicts
  update_conflicts : Bool → (Columns → Columns → Columns) → Conflicts

abbrev pub sets_status : Conflicts → Bool
sets_status refuse = false
sets_status ignore = false
sets_status (update_conflicts names_status pick) = names_status

-- The key of the first row that has the key or the number of the instance.
abbrev pub conflicting : Instance → Dict Row → Option ℕ
conflicting o [] = none
conflicting o ((k, r) ∷ rs) =
    let rest = conflicting o rs in
    if (not (o.pk == 0) && k == o.pk) || str_eq r.columns.order_no o.columns.order_no
    then some k
    else rest

pub insert_fresh : Instance → Call (Unit {0})
unfolding insert_row insert_at
insert_fresh o =
    if o.pk == 0
    then (insert_row o.columns pending >> pure tt)
    else insert_at o.pk o.columns pending

-- The INSERT of one new order, Pending, and what a conflict makes of it. An INSERT IGNORE also skips a
-- row whose total does not reconcile.
pub create_one : Conflicts → Instance → Option ℕ → Call (Unit {0})
unfolding insert_fresh update_columns
create_one refuse o none = insert_fresh o
create_one ignore o none = if reconciles o.columns then insert_fresh o else pure tt
create_one (update_conflicts names_status pick) o none = insert_fresh o
create_one refuse o (some k) = raise integrity_error
create_one ignore o (some k) = pure tt
create_one (update_conflicts names_status pick) o (some k) =
    update_columns k (λ c. pick c o.columns)

pub create_each : Conflicts → List Instance → Call (Unit {0})
unfolding create_one
create_each conflicts [] = pure tt
create_each conflicts (o ∷ os) =
    (gets (λ t. conflicting o t.rows) >>= create_one conflicts o) >> create_each conflicts os

-- `OrderQuerySet.bulk_create`
unfoldable pub bulk_create : Conflicts → List Instance → Call (Unit {0})
unfolding all_pending create_each
bulk_create conflicts os = do
  raise_if (not (all_pending os)) illegal_transition
  raise_if (sets_status conflicts) illegal_transition
  atomic (create_each conflicts os)
