-- ===== src/Lib.antt =====
-- A model of the shop's microservices and of what makes an order go through: an order is created by
-- order-service, whose saga orchestrator sends commands to product-service (stock) and
-- payment-service (money) and reacts to their replies. Every message of this exchange goes through an
-- outbox table that is written in the same transaction as the state it belongs to and that a processor publishes to
-- Kafka once a second, so that messages arrive at least once and in no fixed order.
--
-- Parts, with the files they model (paths from the repository's root):
-- - Shared, Shared.Messages, Shared.Pages: packages/shared/src, its constants and interfaces; Shared.Pages
--   also holds PaginationQueryDto of the services' dto.ts files, with the checks that it declares.
-- - Outbox: outbox.entity.ts and outbox.service.ts of the services; Outbox.Processor:
--   packages/outbox/src/abstract-outbox-processor.service.ts. A tick, `process_pending`, takes the
--   time, the broker's answer to each row and how the transaction ends: it commits, or it is
--   rolled back, after all records or at an update that fails.
-- - Idempotency: idempotency.entity.ts and idempotency.service.ts, the stored reply of each command.
-- - Order.Status, Order.Entity, Order.Saga: services/order-service/src/orders/domain.
-- - Order.Persistence: services/order-service/src/orders/infrastructure/persistence, the mappers and
--   the repositories over the tables of orders_db.
-- - Order.Orchestrator: application/services/saga-orchestrator.service.ts of order-service. `on_reply`
--   is the five handlers `onStockReserved` to `onStockReleased`, one constructor of `SagaReply` for
--   each; Order.Orchestrator.Retry is `retryStuckSagas`.
-- - Order.ReplyController: saga-reply.controller.ts of order-service, which subscribes the handlers.
-- - Order.OutboxProcessor: outbox-processor.service.ts of order-service, a second processor.
-- - Order.Controller: orders.controller.ts of order-service.
-- - Kafka: packages/kafka/src/kafka.consumer.service.ts, the dispatch of a message with its attempts and
--   the dead-letter topic, and the life of the consumer (Kafka.Subscriptions); Kafka.Producer: kafka.producer.service.ts.
-- - Order.UseCases: application/use-cases of order-service.
-- - Product: services/product-service/src/products: products.service.ts (Product.Service),
--   with its map of fetches in flight (Product.Service.Inflight), products-saga.controller.ts
--   (Product.SagaController) and products.controller.ts
--   (Product.Controller).
-- - Payment: services/payment-service/src/payments: wallet.service.ts and wallet-events.consumer.ts
--   (Payment.Wallet), payments.service.ts and payments-saga.controller.ts (Payment.SagaController),
--   wallets.controller.ts (Payment.WalletsController).
-- - Auth: services/auth-service/src/auth/auth.service.ts, with users/user.entity.ts, and auth.controller.ts
--   (Auth.Controller). Bcrypt, SHA-256 and the JWT library are the parameter `Crypto`; of the JWT library
--   it is assumed that a signed token is read with its claims until it expires and that the claims do
--   not depend on the time.
-- - User: services/user-service/src/users, users.service.ts and user-events.consumer.ts, and
--   users.controller.ts (User.Controller).
-- - Notification: services/notification-service/src/notification, the mails and the log that keeps them
--   from being sent twice.
-- - Pdf: services/pdf-service/src/pdf, the receipts and the events that announce them. The file system is
--   part of the state; whether a write breaks off is an argument.
-- - Shared.Roles: how the roles of a user travel in a header, from the gateway's proxy.service.ts to
--   the controllers that read it; Shared.InternalGuard: packages/shared/src/guards/internal.guard.ts;
--   Http: the exceptions of NestJS and the headers between the services.
-- - Gateway: services/gateway/src: modules/proxy (Gateway.Proxy and, for the controllers,
--   Gateway.Handlers), guards (Gateway.Guards), modules/auth/jwt.strategy.ts with its cache
--   (Gateway.Jwt), filters and the timeout interceptor (Gateway.Filter), modules/health
--   (Gateway.Health). Gateway.Routes puts guards, interceptors and handlers together as app.module.ts
--   does. `fetch` behind opossum, passport and Redis are parameters.
-- - Checkout: the services together. Each message is the one that a service has put into its outbox and
--   is handed to the handler that consumes its topic, up to the release of the stock of an order whose
--   payment was refused.
--
-- How the code corresponds. An async method is a function of type `Exec E S A` (Exec): from a state to
-- a result or an error, with the state that it leaves beside either. `dataSource.transaction` is a
-- parameter with one law, that it keeps what its callback wrote if the callback returns and drops it if
-- the callback throws (DataSource; DataSourceBeside where a cache stands beside the database). A TypeORM
-- repository is a parameter too (Repository, with Unique for a unique column), with the documented
-- behaviour of the calls that the services make as its laws; Repository.Memory is a table in memory that
-- meets them, which the examples use. The time, a random uuid, the broker's answers, the rows that other
-- transactions have locked and whether a query fails are arguments. Transactions run one after the other,
-- which is what the row locks of the code give for one order, product or wallet; only Product.Service.Window
-- puts a reader between the two halves of a reservation, and Product.Service.Inflight takes the calls and
-- fetches of concurrent reads in any order (`dedup`).
--
-- Numbers: amounts are natural numbers of cents, times of milliseconds; JavaScript's rounding of
-- fractions and its range are not modelled, and neither is that of the columns: the database refuses
-- a total, an amount or a balance above what decimal(10,2) or decimal(12,2) holds, and a quantity above
-- what int holds, and the model stores it. There is no fuel but in the printing of numbers, where a
-- number has fewer digits than its successor. Loops are structural on the list they run over.
--
-- Not modelled: logging, the checks that class-validator makes of request bodies (those of a page's query
-- are), the NestJS modules,
-- tracing, the health checks of the services behind the gateway and the scripts.
pub mod Prelude
pub mod Exec
pub mod Repository
pub mod Shared
pub mod Outbox
pub mod Order
pub mod Idempotency
pub mod Product
pub mod Payment
pub mod Kafka
pub mod Auth
pub mod User
pub mod Notification
pub mod Pdf
pub mod Http
pub mod Gateway
pub mod Checkout
