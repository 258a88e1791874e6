-- ===== src/Checkout/Agreement.antt =====
-- A checkout as a whole: order, stock and money agree at its end.

use Prim.Native.String.{◌++◌ as ◌++ₛ◌}
use shop_microservices.Prelude.{
  ℕ, String, ◌≡◌, ◌≢◌, sym, ◌∙◌, ap, subst, none, some, List, [], ◌++◌, map, All, ◌⊎◌, inl, inr,
  append-nil,
}
use shop_microservices.Shared.Messages.{Payload, StockItem}
use shop_microservices.Shared.{KafkaTopic}
use shop_microservices.Exec.{DataSource, DataSourceBeside}
use shop_microservices.Order.Status.{OrderError}
use shop_microservices.Order.Persistence.Repositories as Orders
use shop_microservices.Order.UseCases.{CreateOrderInput, create_order, reserve_command}
use shop_microservices.Order.UseCases.Creation.{created, create_body_lem}
use shop_microservices.Order.Orchestrator.Consistency.{IsConsistent}
use shop_microservices.Order.Orchestrator.Progress.{progress_of, cancelled}
use shop_microservices.Product.Entity as Products
use shop_microservices.Product.Entity.{ReservedItemResult, error_message}
use shop_microservices.Product.Service.Prices.{IsPriced}
use shop_microservices.Product.Service.Stock.{Takes, quoted}
use shop_microservices.Product.SagaController.{handle_reserve_stock}
use shop_microservices.Product.SagaController.Replies.{Accounted, worth, handle_reserve_stock_told}
use shop_microservices.Payment.Entity as Payments
use shop_microservices.Checkout.{Shop, sent, place, reply_stage, stock_stage, checkout}
use shop_microservices.Checkout.Steps.{sent-write}
use shop_microservices.Checkout.Payment.{NotPaid, PaidOrNot}
use shop_microservices.Checkout.Order.{
  new_id, new_saga_id, reserved_event, failed_event, stock_command, pay_command,
}
use shop_microservices.Checkout.Stock.{reply_stage-products, stocked}
use shop_microservices.Checkout.Stages.{reserved_stage, failed_stage}

module _ {O : Orders.Tables} {P : Products.Tables} {C : Products.Cache} {Y : Payments.Tables}
    (DO : DataSource OrderError (Orders.Db O))
    (DP : DataSourceBeside Products.ProductError (Products.Db P) C.Store)
    (DY : DataSource Payments.PaymentError (Payments.Db Y)) (at : ℕ → ℕ) (uuid : String)
    (input : CreateOrderInput) (s0 : Shop O P C Y) where
  -- Either the whole stock is taken and the payment decides, or a part of it is taken and the
  -- order is cancelled.
  abbrev pub Agrees : Shop O P C Y → Type 0
  Agrees s =
      ((items : List ReservedItemResult) × (map quoted items ≡ input.items)
        × All (IsPriced P s0.products.products) items
        × Takes P input.items s0.products.products s.products.products
        × PaidOrNot DO DP DY at uuid (pay_command O s0.orders input (worth items))
            (new_saga_id O s0.orders) input.items s0 s)
      ⊎ ((taken : List StockItem) × (rest : List StockItem) × (input.items ≡ taken ++ rest)
          × (rest ≢ [])
          × Takes P taken s0.products.products s.products.products
          × (progress_of O s.orders (new_id O s0.orders) ≡ some cancelled)
          × (s.payments ≡ s0.payments))

  stock_told :
      IsConsistent O s0.orders
      → (products : Products.Db P) (cache : C.Store)
      → Y.keys.find_one s0.payments.keys (new_saga_id O s0.orders ++ₛ "-pay") ≡ none
      → NotPaid Y s0.payments (new_id O s0.orders)
      → Accounted P C (at 1) (stock_command O s0.orders input) s0.products products
      → Agrees (
          reply_stage DO DP DY at uuid
            (sent P.outbox s0.products.outbox products.outbox)
            (stocked (at 0) input s0 products cache))
  stock_told c products cache unseen fresh
        (taken, rest, splits, takes, inl (items, nothing, quotes, priced, queued)) =
      let all : input.items ≡ taken = splits ∙ ap (λ r. taken ++ r) nothing ∙ append-nil taken in
      let s = stocked (at 0) input s0 products cache in
      subst (λ m. Agrees (reply_stage DO DP DY at uuid m s))
        (sym (
          ap (sent P.outbox s0.products.outbox) queued
          ∙ sent-write P.outbox (at 1) (new_id O s0.orders) (new_id O s0.orders)
              KafkaTopic.stock_reserved
              (Payload.stock_reserved (reserved_event O s0.orders input items)) s0.products.outbox))
        (inl (
          items,
          quotes,
          priced,
          subst (λ t. Takes P input.items s0.products.products t)
              (ap (λ db. db.products)
                (sym (
                  reply_stage-products DO DP DY at uuid
                    (some (Payload.stock_reserved (reserved_event O s0.orders input items))) s)))
              (subst (λ xs. Takes P xs s0.products.products products.products) (sym all) takes),
          reserved_stage DO DP DY at uuid input s0 c products cache items unseen fresh,
        ))
  stock_told c products cache unseen fresh (taken, rest, splits, takes, inr (e, more, queued)) =
      let (ends, kept, unpaid) =
        failed_stage DO DP DY at uuid input s0 c products cache (error_message e) in
      subst (λ m. Agrees (reply_stage DO DP DY at uuid m (stocked (at 0) input s0 products cache)))
        (sym (
          ap (sent P.outbox s0.products.outbox) queued
          ∙ sent-write P.outbox (at 1) (new_id O s0.orders) (new_id O s0.orders)
              KafkaTopic.stock_reservation_failed
              (Payload.stock_reservation_failed (failed_event O s0.orders input (error_message e)))
              s0.products.outbox))
        (inr (
          taken,
          rest,
          splits,
          more,
          subst (λ db. Takes P taken s0.products.products db.products) (sym kept) takes,
          ends,
          unpaid,
        ))

  placed :
      IsConsistent O s0.orders
      → (place DO DP DY (at 0) input s0) ≡ record s0 { orders = (created O (at 0) input s0.orders) }
  unfolding create_order
  placed c = rw (create_order, DO.transaction_lem, create_body_lem O (at 0) input s0.orders c)

  sent-placed :
      sent O.outbox s0.orders.outbox (created O (at 0) input s0.orders).outbox
      ≡ some (Payload.reserve_stock (stock_command O s0.orders input))
  unfolding reserve_command
  sent-placed =
      sent-write O.outbox (at 0) (new_id O s0.orders) (new_id O s0.orders) KafkaTopic.reserve_stock
        (Payload.reserve_stock (stock_command O s0.orders input)) s0.orders.outbox

  -- After the creation of an order its stock is reserved.
  pub checkout_lem :
      IsConsistent O s0.orders
      → checkout DO DP DY at uuid input s0
        ≡ stock_stage DO DP DY at uuid
            (some (Payload.reserve_stock (stock_command O s0.orders input)))
            (record s0 { orders = (created O (at 0) input s0.orders) })
  checkout_lem c =
      ap (λ s. stock_stage DO DP DY at uuid (sent O.outbox s0.orders.outbox s.orders.outbox) s)
        (placed c)
      ∙ ap
          (λ m.
            stock_stage DO DP DY at uuid m
              (record s0 { orders = (created O (at 0) input s0.orders) }))
          sent-placed

  -- Order, stock and money agree at the end of a checkout, whatever the catalogue and the wallets
  -- hold. Either every item is taken: then the order is paid, the customer's wallet has lost
  -- exactly the price times quantity that the reservation quoted for the items, and the payment is
  -- completed; or no wallet has changed, the payment is refused, and the order waits for the
  -- release of its stock, for which a command of its saga with exactly the ordered items is in the
  -- outbox. Or an item could not be taken: then the order is cancelled and payment-service is as
  -- it was, while what was taken before that item stays taken. It asks for a consistent database
  -- of orders, and that the new commands and the new order are unknown to the other services.
  pub checkout-Agrees :
      IsConsistent O s0.orders
      → P.keys.find_one s0.products.keys (new_saga_id O s0.orders) ≡ none
      → Y.keys.find_one s0.payments.keys (new_saga_id O s0.orders ++ₛ "-pay") ≡ none
      → NotPaid Y s0.payments (new_id O s0.orders)
      → Agrees (checkout DO DP DY at uuid input s0)
  checkout-Agrees c new_stock new_payment fresh =
      let command = stock_command O s0.orders input in
      let out = handle_reserve_stock P C (at 1) DP command (s0.products, s0.cache) in
      subst Agrees (sym (checkout_lem c)) (
        stock_told c (out.1.0) (out.1.1) new_payment fresh
          (handle_reserve_stock_told P C DP (at 1) command s0.products s0.cache new_stock))
