-- ===== src/Lib.antt =====
-- A verification library for MetroDrip, the Django shop: models of the parts that decide about money,
-- stock and orders, and theorems about them.
--
-- The program's parts and where they are modelled:
--   Inventory            apps/inventory/models.py: the rows of the stock ledger
--   Inventory/Provider   apps/inventory/providers/local.py: what the operations share
--   Inventory/Reserve    ... reserve_stock, reserve_lines
--   Inventory/Settle     ... commit_reservation, commit_holds, release_*, the expiry sweep
--   Inventory/Adjust     ... adjust_stock, restore_order_stock
--   Inventory/Stable     the five kinds of write, which Sound and Keyed show to keep the invariants
--   Inventory/Frees      ... release_holds, step by step
--   Inventory/History    sequences of calls of the provider
--   Orders               apps/orders/models.py: statuses, legal edges, the order table
--   Orders/Database      ... the INSERTs, UPDATEs and DELETEs that Django makes of the ORM calls
--   Orders/Write         ... Order.save, Order.transition_to, OrderQuerySet
--   Orders/Number        apps/orders/services.py: next_order_no
--   Outbox               apps/orders/outbox.py: the outbox table, drain_outbox
--   Checkout             apps/orders/checkout.py: the cart, parse_items
--   Checkout/Saga        ... place_order and its compensations
--   Checkout/Local       apps/inventory/services.py: the provider as the ledger of a checkout
--   Payments             apps/payments/models.py: the payments, and the tables that a payment writes
--   Payments/Holds       apps/payments/holds.py: the stock of a paid order, the sweep of unknown holds
--   Payments/Simulated   apps/payments/providers/simulated.py: confirmation, failure, replay
--   Service              services/inventory/models.py, idempotency.py: the ledger behind HTTP, its keys
--   Service/Reservations services/inventory/api.py: reserve, commit, release, the sweep
--   Service/Adjustments  ... adjust_stock
--   Service/Reads        ... get_stock, get_stock_batch
--   Service/History      sequences of requests, over the five kinds of write of Inventory/Stable
--   Service/Replay       ... requests that are sent again; Service/Lasting: a claim stays
--   Remote               apps/inventory/providers/service.py: the wire between the provider and the service
--   Remote/Provider      ... the operations that change the ledger, over call of Http
--   Remote/Once          what the attempts of one call do to the ledger
--   Shipping             apps/shipping/models.py, webhooks.py: shipments, the courier's status updates
--   Refunds              apps/orders/refunds.py: deliver_refund
--   LoginThrottle        apps/accounts/login_throttle.py: the buckets and the lockout
--   Money                apps/core/money.py: checks, products and sums of centavos
--   Http                 apps/core/http.py: call, its retries and errors, the circuit breaker
--
-- How the code becomes definitions. A Python call that reads and writes tables and may raise is an
-- `Action` (Base/Action): a function from the state to a result and the state after it, where a raise
-- keeps what was written. `transaction.atomic()` is `atomic`, which takes the writes of a raising block
-- back. A table is a list of rows in primary-key order. A row lock lasts to the end of its transaction
-- and every read-modify-write of the code is under one, so that concurrent callers are some sequence
-- of whole calls. An argument whose type the code checks at run time is a `Value`. Counters are natural
-- numbers; where Python computes with a sign the model uses the integers of Base/Int. The clock and the
-- settings are arguments. `hashlib.sha256` and `json.dumps` are fields of `Env`, with no law. What the
-- network, the handlers, the clock and the random numbers do is a parameter of each model: `World` of
-- Http, `Handlers` and `Tick` of Outbox, `StockRoom` of Payments, `Env` of Checkout/Saga, `Settings` and
-- `Moment` of LoginThrottle.
--
-- The checkout sees the stock ledger through `StockLedger`, the calls that it makes, and relies on the
-- laws of `IsStockLedger`, which the docstrings of apps/inventory promise: a reservation that raises
-- holds nothing unless its answer is uncertain, a release that returns has given everything back. Checkout/Local
-- shows that the in-process provider keeps these laws, on a state that carries the invariants of its
-- tables. The steps of one checkout follow each other without other writers of the ledger between them.
--
-- A payment sees the ledger through `StockRoom`, which has no law of its own; `Sales` in Payments/Holds/Sells
-- is what the sweep of unknown holds relies on. Orders and the ledger are on connections of their own
-- in production, so that `in_orders`, the transaction of Payments, takes back the tables of Orders only;
-- what `transaction.on_commit` registers runs right after the transaction.
--
-- A request to the inventory service is one transaction of the rows and of the claimed keys: `respond`
-- takes both back when the handler raises, and turns `Replay` into the stored answer. The bodies that are
-- compared and stored are data types, and the texts of the errors are left out.
--
-- A call of the remote provider joins the models of Http and Service: `Wire` says of every attempt whether
-- it is lost, or handled and its answer heard, late or cut off, and `post` gives `call` the outcomes that
-- the service produces and leaves the service with the attempts that were sent. Other clients do not
-- write to the ledger between the attempts of one call.
--
-- Loops of the code run over lists, or over the attempts that a constant or a policy allows, and are
-- structural recursions, so that there is no fuel.
--
-- `Model.save` of a new instance that carries a key updates the row with that key, as Django documents; the
-- histories of Orders/Write/History are about the orders for which no call does this, and none deletes them.
--
-- Not modelled: HTML views, templates, forms and admin pages, settings, seed data, the mobile client,
-- the migrations and the ORM itself. Upper bounds of the database's integer columns are not modelled.
pub mod Base
pub mod Inventory
pub mod Orders
pub mod Outbox
pub mod Http
pub mod Checkout
pub mod LoginThrottle
pub mod Money
pub mod Payments
pub mod Service
pub mod Remote
pub mod Shipping
pub mod Refunds
