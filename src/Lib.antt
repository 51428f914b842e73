-- ===== src/Lib.antt =====
-- The services of Atlas Commerce: inventory, orders, payments, returns, catalog, settlement,
-- notifications and the gateway's admission.
--
-- The program is a set of HTTP services that share packages/shared. An order is placed by the orders
-- service as a saga: it asks the catalog for prices, stores a pending order, asks the inventory
-- service to reserve the stock, the payments service to create and capture a payment intent, and the
-- inventory service to commit the reservation; on an error it releases and voids what it has and
-- marks the order failed. The inventory service keeps the stock levels of each warehouse, with the
-- part that pending reservations hold. The payments service charges through a provider and posts the
-- charge to the settlement service's ledger. The returns service takes goods back: it restocks them in
-- the inventory and posts a refund to the ledger, guarded by an idempotency key. The catalog computes
-- prices from rules and currency rates and caches them, the settlement service posts each external
-- reference once and collects the entries of a period in a settlement, and the notifications service
-- queues events for webhooks, which a worker delivers with a backoff. The gateway admits requests by
-- API key and counts them.
--
-- How the code is modelled. A service's database is a record of tables, and a table is a list of rows
-- whose primary key is read first match first. An asynchronous function is an action: it takes the
-- state to a result or an error and the next state, and what it wrote before a throw stays written.
-- with_tx is withTx: the writes of a body that throws are undone. One call runs at a time: the code
-- orders its writes by row locks and guarded updates, and interleavings of two calls are modelled only
-- where they are arguments: in the pauses of the idempotency guard and between the statements of a
-- ledger post. The clock, now(), and the ids that randomUUID() returns are arguments (Env); uuids and
-- texts that are only stored or compared are numbers, and comparison by localeCompare is the order of
-- those numbers. Quantities and cents are natural numbers, and a stock adjustment is an integer; the
-- columns' and JavaScript's number bounds are not modelled. A key of a table is tested where a call can
-- break it. A double of the catalog is a fraction, and
-- what a product of doubles is, is a parameter. No definition runs on fuel: loops are
-- structural, and the retries of a call are a number that the code gives.
--
-- Prelude: library names, tests into Bool (Prelude/Tests), lists and sorting (Prelude/Lists),
--   integers over the native numbers (Prelude/Int), the head of a sorted list (Prelude/Sorted).
-- Shared: packages/shared/src. Errors: errors.ts. Tx: db.ts, and the effects of async functions.
--   Post: postconditions of actions and the rules for composing them. Retry: retry.ts.
--   Idempotency: idempotency.ts, the guard over its entries in the cache; a call of itself that it makes
--   takes the next of a list of rounds, so that the list bounds how often it waits anew, and it throws at
--   the end of the list as it does at a deadline. Replay: its proofs. Rows: a table by primary key.
-- Inventory: services/inventory/src.
--   Types: repositories/repositoryTypes.ts and domain/*Types.ts. Allocation: domain/allocation.ts and
--   stockMath.ts. Levels: repositories/stockLevelsRepository.ts. Reservations:
--   reservationsRepository.ts and movementsRepository.ts. Service: domain/reservationService.ts and
--   adjustmentService.ts. Operations: stockOperationsRepository.ts and stockOperationsService.ts.
--   Stock: domain/stockService.ts. Accounts: the quantities of one level and the stock invariant
--   StockInv: the reserved stock of each level is what the pending reservations hold there, and it is
--   on hand. Plan, Reserve, Settle, Lifecycle, Releases, Expiry, Repeat, Adjust, Transfer: the proofs. Tests:
--   runs and the theorems at concrete inputs, here and in the other Tests.
-- Orders: services/orders/src.
--   Types: domain/models.ts. Repository: repositories/orderRepository.ts and shipmentRepository.ts.
--   Clients: clients. An Apis record holds what the endpoints of the other services do to the rest of
--   the system, and is a parameter. Place:
--   domain/placeOrder.ts, priceLines.ts and compensation.ts. Fulfil: cancelOrder.ts, shipOrder.ts and
--   jobs/shipmentProgressTick.ts. Export: toCsv of domain/orderOperationsService.ts. Rows, Attempt,
--   Settled, Placed, Cancel, Ship, Progress, Csv: the proofs.
-- CrossService: the orders service over the inventory service: with_inventory fills the inventory's
--   part of Apis with the functions of Inventory, through HTTP's statuses.
-- Payments: services/payments/src.
--   Types: types.ts, provider/pspProvider.ts and clients/settlementClient.ts, over parameters for the
--   hash of node:crypto and for the settlement endpoint. Intents: repositories, domain/intentService.ts
--   and captureIntent.ts, below the idempotency guard. Rates: domain/fxService.ts. Reads:
--   the paged reads and domain/paymentReadService.ts. Capture, Once: the proofs.
--
-- Returns: services/returns/src.
--   Refund: domain/refundCalculator.ts. Types: domain/models.ts and clients, with the endpoints of the
--   other services as a parameter, Outside. Repository: repositories/returnsRepo.ts. Service:
--   domain/returnService.ts. Updates, Approve, Refunded, Resume, Moves, Machine, Saga, Create: the
--   proofs. Reads: the list.
-- Catalog: services/catalog/src.
--   Rounding: domain/rounding.ts, and packages/shared/src/money.ts for values that are not negative.
--   Types: domain/types.ts, currency.ts and clients/payments.ts. Pricing: domain/discounts.ts,
--   ruleSelection.ts, tiers.ts and pricingEngine.ts. Prices: domain/priceService.ts,
--   priceRuleService.ts, cacheKeys.ts and cacheInvalidation.ts, over withCache of packages/shared.
--   Products: domain/productService.ts and repositories/productRepository.ts. Nearest, Winner, Bounds,
--   Keys, Cached, Updated: the proofs.
-- Settlement: services/settlement/src.
--   Ledger: repositories/ledgerRepo.ts. Runs: settlementsRepo.ts, settlementLinesRepo.ts,
--   domain/settlementReadService.ts and the run of controllers/settlementsController.ts. Posted, Drafts,
--   Totals: the proofs.
-- Notifications: services/notifications/src.
--   Deliveries, Due: the two repositories and domain/backoff.ts. Service: domain/notificationService.ts,
--   enqueueEvent.ts and the tick of jobs/deliveryWorker.ts. Reads: the lists. Claims, Attempts,
--   Outcome: the proofs.
-- Gateway: services/gateway/src. Access: domain/apiKeyAuthenticator.ts and rateLimiter.ts, their
--   repositories and the middlewares. Limits: the proofs.
--
-- Not modelled: HTTP routing, request parsing and logging, the expiry of cache entries, reporting and
-- most paged reads, the proxy of the gateway, and the synthetic monitor. Row locks that another transaction holds are taken to be free.
pub mod Prelude
pub mod Shared
pub mod Inventory
pub mod Orders
pub mod CrossService
pub mod Payments
pub mod Returns
pub mod Catalog
pub mod Settlement
pub mod Notifications
pub mod Gateway
