-- ===== src/Checkout.antt =====
-- The services together: one order from its creation to the reply about its payment, and the
-- release of its stock if the payment failed. Each message is the one that a service has put into
-- its outbox, and is delivered to the service that consumes its topic.
pub mod Steps
pub mod Release
pub mod Payment
pub mod Order
pub mod Stock
pub mod Stages
pub mod Agreement
pub mod Compensation
pub mod Closing
mod Examples
use mathlib.Core.Option
use shop_microservices.Prelude.{ℕ, String, Option, none, some}
use shop_microservices.Exec.{DataSource, DataSourceBeside}
use shop_microservices.Outbox.{OutboxEntity, OutboxRepository}
use shop_microservices.Shared.Messages.{Payload}
use shop_microservices.Order.Status.{OrderError}
use shop_microservices.Order.Persistence.Repositories as Orders
use shop_microservices.Order.UseCases.{CreateOrderInput, create_order}
use shop_microservices.Order.Orchestrator.{SagaReply, on_reply}
use shop_microservices.Product.Entity as Products
use shop_microservices.Product.SagaController.{handle_reserve_stock, handle_release_stock}
use shop_microservices.Payment.Entity as Payments
use shop_microservices.Payment.SagaController.{handle_process_payment}

-- What a step has put into an outbox: the payload of the row that it inserted.
abbrev pub sent : (R : OutboxRepository) → R.Table → R.Table → Option Payload
sent R before after =
    Option.map (λ (r : OutboxEntity). r.payload) (R.find_one after (R.generate before))

-- The topics that saga-reply.controller.ts subscribes to.
abbrev pub reply_of : Payload → Option SagaReply
reply_of (Payload.stock_reserved e) = some (SagaReply.stock_reserved e)
reply_of (Payload.stock_reservation_failed e) = some (SagaReply.stock_reservation_failed e)
reply_of (Payload.payment_processed e) = some (SagaReply.payment_processed e)
reply_of (Payload.payment_failed e) = some (SagaReply.payment_failed e)
reply_of (Payload.stock_released e) = some (SagaReply.stock_released e)
reply_of _ = none

module _ (O : Orders.Tables) (P : Products.Tables) (C : Products.Cache) (Y : Payments.Tables) where
  pub record Shop : Type 0 where
    pub orders : Orders.Db O
    pub products : Products.Db P
    pub cache : C.Store
    pub payments : Payments.Db Y

module _ {O : Orders.Tables} {P : Products.Tables} {C : Products.Cache} {Y : Payments.Tables}
    (DO : DataSource OrderError (Orders.Db O))
    (DP : DataSourceBeside Products.ProductError (Products.Db P) C.Store)
    (DY : DataSource Payments.PaymentError (Payments.Db Y)) where
  abbrev pub place : ℕ → CreateOrderInput → Shop O P C Y → Shop O P C Y
  place now input shop = record shop { orders = (create_order O DO now input shop.orders).1 }

  -- product-service takes the message from order-service.
  abbrev pub to_products : ℕ → Option Payload → Shop O P C Y → Shop O P C Y
  to_products now (some (Payload.reserve_stock command)) shop =
      let out = handle_reserve_stock P C now DP command (shop.products, shop.cache) in
      record shop { products = out.1.0; cache = out.1.1 }
  to_products now (some (Payload.release_stock command)) shop =
      let out = handle_release_stock P C now DP command (shop.products, shop.cache) in
      record shop { products = out.1.0; cache = out.1.1 }
  to_products now _ shop = shop

  abbrev pub reply_to : ℕ → Option SagaReply → Shop O P C Y → Shop O P C Y
  reply_to now none shop = shop
  reply_to now (some reply) shop = record shop { orders = (on_reply O DO now reply shop.orders).1 }

  -- order-service takes the message from another service.
  abbrev pub to_orders : ℕ → Option Payload → Shop O P C Y → Shop O P C Y
  to_orders now none shop = shop
  to_orders now (some payload) shop = reply_to now (reply_of payload) shop

  -- payment-service takes the message from order-service.
  abbrev pub to_payments : ℕ → String → Option Payload → Shop O P C Y → Shop O P C Y
  to_payments now uuid (some (Payload.process_payment command)) shop = record shop {
    payments = (handle_process_payment Y now DY uuid command shop.payments).1;
  }
  to_payments now uuid _ shop = shop

  -- The payment, if the message asks for it, and its reply. `at` gives the time of each step.
  abbrev pub pay_stage : (ℕ → ℕ) → String → Option Payload → Shop O P C Y → Shop O P C Y
  pay_stage at uuid message s =
      let s' = to_payments (at 3) uuid message s in
      to_orders (at 4) (sent Y.outbox s.payments.outbox s'.payments.outbox) s'

  -- The reply about the stock, and what it leads to.
  abbrev pub reply_stage : (ℕ → ℕ) → String → Option Payload → Shop O P C Y → Shop O P C Y
  reply_stage at uuid message s =
      let s' = to_orders (at 2) message s in
      pay_stage at uuid (sent O.outbox s.orders.outbox s'.orders.outbox) s'

  abbrev pub stock_stage : (ℕ → ℕ) → String → Option Payload → Shop O P C Y → Shop O P C Y
  stock_stage at uuid message s =
      let s' = to_products (at 1) message s in
      reply_stage at uuid (sent P.outbox s.products.outbox s'.products.outbox) s'

  -- The order is created, its stock is reserved, the reply is handled, the payment is made if it was
  -- asked for, and its reply is handled.
  abbrev pub checkout : (ℕ → ℕ) → String → CreateOrderInput → Shop O P C Y → Shop O P C Y
  checkout at uuid input s =
      let s' = place (at 0) input s in
      stock_stage at uuid (sent O.outbox s.orders.outbox s'.orders.outbox) s'

  -- The stock of an order whose payment failed is released, and the reply is handled.
  abbrev pub release_stage : (ℕ → ℕ) → Option Payload → Shop O P C Y → Shop O P C Y
  release_stage at message s =
      let s' = to_products (at 5) message s in
      to_orders (at 6) (sent P.outbox s.products.outbox s'.products.outbox) s'
