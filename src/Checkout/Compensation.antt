-- ===== src/Checkout/Compensation.antt =====
-- The release of the stock of an order whose payment failed.
use shop_microservices.Prelude.{ℕ, String, ◌≡◌, refl, sym, ◌∙◌, ap, subst, none, some}
use shop_microservices.Shared.{KafkaTopic}
use shop_microservices.Shared.Messages.{Payload, ReleaseStockCommand}
use shop_microservices.Exec.{DataSource, DataSourceBeside}
use shop_microservices.Order.Status.{OrderError, same_step}
use shop_microservices.Order.Persistence.Repositories as Orders
use shop_microservices.Order.Orchestrator.{stock_released}
use shop_microservices.Order.Orchestrator.Consistency.{IsConsistent}
use shop_microservices.Order.Orchestrator.Progress.{progress_of, releasing, cancelled}
use shop_microservices.Product.Entity as Products
use shop_microservices.Product.Service.Stock.{Takes, stock_of}
use shop_microservices.Product.Service.Release.{release_each_restores}
use shop_microservices.Product.SagaController.{handle_release_stock, save, write}
use shop_microservices.Product.SagaController.Safety.{handle_release_stock_new}
use shop_microservices.Payment.Entity as Payments
use shop_microservices.Checkout.{Shop, sent, to_orders, release_stage}
use shop_microservices.Checkout.Steps.{sent-write}
use shop_microservices.Checkout.Payment.{reply-progress}

module _ {O : Orders.Tables} {P : Products.Tables} {C : Products.Cache} {Y : Payments.Tables}
    (DO : DataSource OrderError (Orders.Db O))
    (DP : DataSourceBeside Products.ProductError (Products.Db P) C.Store)
    (DY : DataSource Payments.PaymentError (Payments.Db Y)) (at : ℕ → ℕ) where
  -- The order is cancelled, every product has the stock of the table, and no money has moved.
  abbrev pub Undone : String → P.products.Table → Shop O P C Y → Shop O P C Y → Type 0
  Undone order_id t s s' =
      (progress_of O s'.orders order_id ≡ some cancelled)
      × ((k : String) → stock_of P s'.products.products k ≡ stock_of P t k)
      × (s'.payments ≡ s.payments)

  pub release_stage-Undone :
      (command : ReleaseStockCommand) (t : P.products.Table) (s : Shop O P C Y)
      → IsConsistent O s.orders
      → progress_of O s.orders command.order_id ≡ some releasing
      → P.keys.find_one s.products.keys command.command_id ≡ none
      → Takes P command.items t s.products.products
      → Undone command.order_id t s
          (release_stage DO DP DY at (some (Payload.release_stock command)) s)
  unfolding same_step save write
  release_stage-Undone command t s c before unseen takes =
      let out = handle_release_stock P C (at 5) DP command (s.products, s.cache) in
      let runs = handle_release_stock_new P C DP (at 5) command s.products s.cache unseen in
      let s' : Shop O P C Y = record s { products = out.1.0; cache = out.1.1 } in
      subst (λ m. Undone command.order_id t s (to_orders DO DP DY (at 6) m s'))
        (sym (
          ap (λ r. sent P.outbox s.products.outbox r.1.0.outbox) runs
          ∙ sent-write P.outbox (at 5) command.order_id command.order_id KafkaTopic.stock_released
              (Payload.stock_released command.base) s.products.outbox))
        (
          reply-progress O DO (at 6) s.orders (stock_released command.base) command.order_id
              releasing c refl before,
          λ k.
              ap (λ r. stock_of P r.1.0.products k) runs
              ∙ release_each_restores P (at 5) command.items t s.products.products takes k,
          refl,
        )
