-- ===== src/Checkout/Stock.antt =====
-- The stock after product-service has answered.
use shop_microservices.Prelude.{ℕ, String, ◌≡◌, refl, ◌∙◌, ap, Option, none, some}
use shop_microservices.Shared.Messages.{Payload}
use shop_microservices.Exec.{DataSource, DataSourceBeside}
use shop_microservices.Order.Status.{OrderError}
use shop_microservices.Order.Persistence.Repositories as Orders
use shop_microservices.Order.UseCases.{CreateOrderInput}
use shop_microservices.Order.UseCases.Creation.{created}
use shop_microservices.Order.Orchestrator.{SagaReply}
use shop_microservices.Product.Entity as Products
use shop_microservices.Product.Entity.{ReservedItemResult, error_message}
use shop_microservices.Payment.Entity as Payments
use shop_microservices.Checkout.{
  Shop, sent, reply_of, reply_to, to_orders, to_payments, reply_stage,
}

-- Only product-service changes the stock.
module _ {O : Orders.Tables} {P : Products.Tables} {C : Products.Cache} {Y : Payments.Tables}
    (DO : DataSource OrderError (Orders.Db O))
    (DP : DataSourceBeside Products.ProductError (Products.Db P) C.Store)
    (DY : DataSource Payments.PaymentError (Payments.Db Y)) where
  reply_to-products :
      (now : ℕ) (reply : Option SagaReply) (s : Shop O P C Y)
      → (reply_to DO DP DY now reply s).products ≡ s.products
  reply_to-products now none s = refl
  reply_to-products now (some reply) s = refl

  to_orders-products :
      (now : ℕ) (message : Option Payload) (s : Shop O P C Y)
      → (to_orders DO DP DY now message s).products ≡ s.products
  to_orders-products now none s = refl
  to_orders-products now (some payload) s = reply_to-products now (reply_of payload) s

  -- Only payment-service changes its tables, and it changes no others.
  pub to_payments_only :
      (now : ℕ) (uuid : String) (message : Option Payload) (s : Shop O P C Y)
      → (db : Payments.Db Y) × (to_payments DO DP DY now uuid message s
          ≡ record s { payments = db })
  to_payments_only now uuid none s = (s.payments, refl)
  to_payments_only now uuid (some (Payload.reserve_stock m)) s = (s.payments, refl)
  to_payments_only now uuid (some (Payload.release_stock m)) s = (s.payments, refl)
  to_payments_only now uuid (some (Payload.stock_reserved m)) s = (s.payments, refl)
  to_payments_only now uuid (some (Payload.stock_reservation_failed m)) s = (s.payments, refl)
  to_payments_only now uuid (some (Payload.stock_released m)) s = (s.payments, refl)
  to_payments_only now uuid (some (Payload.payment_processed m)) s = (s.payments, refl)
  to_payments_only now uuid (some (Payload.payment_failed m)) s = (s.payments, refl)
  to_payments_only now uuid (some (Payload.order_confirmed m)) s = (s.payments, refl)
  to_payments_only now uuid (some (Payload.order_cancelled m)) s = (s.payments, refl)
  to_payments_only now uuid (some (Payload.pdf_generated m)) s = (s.payments, refl)
  to_payments_only now uuid (some (Payload.user_registered m)) s = (s.payments, refl)
  to_payments_only now uuid (some (Payload.process_payment m)) s = (_, refl)

  pub reply_stage-products :
      (at : ℕ → ℕ) (uuid : String) (message : Option Payload) (s : Shop O P C Y)
      → (reply_stage DO DP DY at uuid message s).products ≡ s.products
  reply_stage-products at uuid message s =
      let s' = to_orders DO DP DY (at 2) message s in
      let m = sent O.outbox s.orders.outbox s'.orders.outbox in
      let s'' = to_payments DO DP DY (at 3) uuid m s' in
      to_orders-products (at 4) (sent Y.outbox s'.payments.outbox s''.payments.outbox) s''
      ∙ ap (λ x. x.products) (to_payments_only (at 3) uuid m s').1
      ∙ to_orders-products (at 2) message s

-- The shop once product-service has answered the command of a new order.
abbrev pub stocked :
    {O : Orders.Tables} {P : Products.Tables} {C : Products.Cache} {Y : Payments.Tables}
    → ℕ
    → CreateOrderInput
    → Shop O P C Y
    → Products.Db P
    → C.Store
    → Shop O P C Y
stocked {O} now input s0 products cache = record s0 {
  orders = created O now input s0.orders;
  products = products;
  cache = cache;
}
