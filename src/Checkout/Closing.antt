-- ===== src/Checkout/Closing.antt =====
-- A checkout to its end, with the release of the stock where the payment was refused.
use Prim.Native.String.{[] as ε, ◌++◌ as ◌++ₛ◌}
use shop_microservices.Prelude.{ℕ, String, ◌≡◌, ◌≢◌, some, List, [], ◌++◌, ◌⊎◌}
use shop_microservices.Shared.Messages.{Payload, StockItem, ReleaseStockCommand}
use shop_microservices.Exec.{DataSource, DataSourceBeside}
use shop_microservices.Order.Status.{OrderError}
use shop_microservices.Order.Persistence.Repositories as Orders
use shop_microservices.Order.UseCases.{CreateOrderInput}
use shop_microservices.Order.Orchestrator.Progress.{progress_of, paid, cancelled}
use shop_microservices.Product.Entity as Products
use shop_microservices.Product.Entity.{ReservedItemResult}
use shop_microservices.Product.Service.Prices.{cost}
use shop_microservices.Product.Service.Stock.{Takes}
use shop_microservices.Payment.Entity as Payments
use shop_microservices.Payment.SagaController.Replies.{Paid, Refused}
use shop_microservices.Checkout.{Shop, release_stage}
use shop_microservices.Checkout.Release.{Queued}
use shop_microservices.Checkout.Order.{new_id, pay_command}
use shop_microservices.Checkout.Compensation.{Undone}

module _ {O : Orders.Tables} {P : Products.Tables} {C : Products.Cache} {Y : Payments.Tables}
    (DO : DataSource OrderError (Orders.Db O))
    (DP : DataSourceBeside Products.ProductError (Products.Db P) C.Store)
    (DY : DataSource Payments.PaymentError (Payments.Db Y)) (at : ℕ → ℕ) (uuid : String)
    (input : CreateOrderInput) (s0 : Shop O P C Y) where
  -- What the ordered items cost at the prices in the table of products.
  abbrev pub price : ℕ
  price = cost P s0.products.products input.items

  -- The order is paid and its stock taken, or its release is in the outbox and undoes the
  -- checkout, or it is cancelled with a part of its stock taken.
  abbrev pub Closes : Shop O P C Y → Type 0
  Closes s =
      (Takes P input.items s0.products.products s.products.products
        × (progress_of O s.orders (new_id O s0.orders) ≡ some paid)
        × Paid Y (at 3) uuid (pay_command O s0.orders input price) s0.payments s.payments)
      ⊎ ((command : ReleaseStockCommand) × Queued O.outbox s.orders.outbox
            (Payload.release_stock command)
          × Refused Y (at 3) (pay_command O s0.orders input price) s0.payments s.payments
          × Undone DO DP DY at (new_id O s0.orders) s0.products.products s
              (release_stage DO DP DY at (some (Payload.release_stock command)) s))
      ⊎ ((taken : List StockItem) × (rest : List StockItem) × (input.items ≡ taken ++ rest)
          × (rest ≢ [])
          × Takes P taken s0.products.products s.products.products
          × (progress_of O s.orders (new_id O s0.orders) ≡ some cancelled)
          × (s.payments ≡ s0.payments))
