-- ===== src/Checkout/Stages.antt =====
-- What follows the reply about the stock of a new order.
use shop_microservices.Prelude.{ℕ, String, ◌≡◌, refl, sym, ◌∙◌, ap, subst, none, some, List}
use shop_microservices.Shared.Messages.{Payload}
use shop_microservices.Exec.{DataSource, DataSourceBeside}
use shop_microservices.Order.Status.{OrderError, same_step}
use shop_microservices.Order.Persistence.Repositories as Orders
use shop_microservices.Order.UseCases.{CreateOrderInput}
use shop_microservices.Order.UseCases.Creation.{order_row, saga_row, created, created-IsConsistent}
use shop_microservices.Order.Orchestrator.{
  stock_reserved, stock_reservation_failed, on_reply, order_cancelled_event,
}
use shop_microservices.Order.Orchestrator.Consistency.{IsConsistent}
use shop_microservices.Order.Orchestrator.Safety.{on_reply_safe}
use shop_microservices.Order.Orchestrator.Progress.{progress_of, reserving, cancelled}
use shop_microservices.Product.Entity as Products
use shop_microservices.Product.Entity.{ReservedItemResult, error_message}
use shop_microservices.Product.SagaController.Replies.{worth}
use shop_microservices.Payment.Entity as Payments
use shop_microservices.Checkout.{Shop, to_orders, pay_stage, reply_stage}
use shop_microservices.Order.Orchestrator.SagaIds.{on_reply-HasSaga}
use shop_microservices.Order.Orchestrator.Lines.{lines_at}
use shop_microservices.Checkout.Steps.{
  stock_reserved-lines, sent-same, sent-stock_reserved, sent-stock_reservation_failed,
}
use shop_microservices.Checkout.Payment.{NotPaid, PaidOrNot, reply-progress, pay_stage-PaidOrNot}
use shop_microservices.Checkout.Order.{
  created-HasSaga, created-lines, new_id, new_saga_id, reserved_event, failed_event, pay_command,
  created-Waiting, created-found, created-pending, created-reserving, created-pay_command,
}
use shop_microservices.Checkout.Stock.{stocked}

module _ {O : Orders.Tables} {P : Products.Tables} {C : Products.Cache} {Y : Payments.Tables}
    (DO : DataSource OrderError (Orders.Db O))
    (DP : DataSourceBeside Products.ProductError (Products.Db P) C.Store)
    (DY : DataSource Payments.PaymentError (Payments.Db Y)) (at : ℕ → ℕ) (uuid : String)
    (input : CreateOrderInput) (s0 : Shop O P C Y) (c : IsConsistent O s0.orders) where
  -- After stock-reserved the payment is asked for.
  pub reserved_stage :
      (products : Products.Db P) (cache : C.Store) (items : List ReservedItemResult)
      → Y.keys.find_one s0.payments.keys (pay_command O s0.orders input (worth items)).command_id
        ≡ none
      → NotPaid Y s0.payments (new_id O s0.orders)
      → PaidOrNot DO DP DY at uuid
          (pay_command O s0.orders input (worth items))
          (new_saga_id O s0.orders)
          input.items
          s0
          (reply_stage DO DP DY at uuid
            (some (Payload.stock_reserved (reserved_event O s0.orders input items)))
            (stocked (at 0) input s0 products cache))
  unfolding same_step
  reserved_stage products cache items unseen fresh =
      let event = reserved_event O s0.orders input items in
      let db3 =
        (on_reply O DO (at 2) (stock_reserved event) (created O (at 0) input s0.orders)).1 in
      let s3 : Shop O P C Y = record (stocked (at 0) input s0 products cache) { orders = db3 } in
      let sends =
        sent-stock_reserved O DO (at 2) (created O (at 0) input s0.orders)
          (created-IsConsistent O (at 0) input s0.orders c) (saga_row O (at 0) input s0.orders)
          (order_row O (at 0) input s0.orders) (created-pending O (at 0) input s0.orders) event
          (created-Waiting O (at 0) input s0.orders) (created-found O (at 0) input s0.orders)
        ∙ ap some (created-pay_command O (at 0) input s0.orders (worth items)) in
      let lines : lines_at O db3.orders (new_id O s0.orders) ≡ some input.items =
        stock_reserved-lines O DO (at 2) (created O (at 0) input s0.orders)
          (created-IsConsistent O (at 0) input s0.orders c) (saga_row O (at 0) input s0.orders)
          (order_row O (at 0) input s0.orders) (created-pending O (at 0) input s0.orders) event
          (new_id O s0.orders) (created-Waiting O (at 0) input s0.orders)
          (created-found O (at 0) input s0.orders)
        ∙ created-lines O (at 0) input s0.orders in
      subst
        (λ m.
          PaidOrNot DO DP DY at uuid (pay_command O s0.orders input (worth items))
            (new_saga_id O s0.orders) input.items s0 (pay_stage DO DP DY at uuid m s3))
        (sym sends)
        (pay_stage-PaidOrNot DO DP DY at uuid (pay_command O s0.orders input (worth items))
          (new_saga_id O s0.orders) input.items s3
          (on_reply_safe O DO (at 2) (created O (at 0) input s0.orders)
            (created-IsConsistent O (at 0) input s0.orders c) (stock_reserved event)).1
          (on_reply-HasSaga O DO (at 2) (created O (at 0) input s0.orders) (stock_reserved event)
            (new_id O s0.orders) (new_saga_id O s0.orders)
            (created-IsConsistent O (at 0) input s0.orders c)
            (created-HasSaga O (at 0) input s0.orders))
          (reply-progress O DO (at 2) (created O (at 0) input s0.orders) (stock_reserved event)
            (new_id O s0.orders) reserving (created-IsConsistent O (at 0) input s0.orders c) refl
            (created-reserving O (at 0) input s0.orders c))
          lines unseen fresh)

  -- The order is cancelled and no payment made.
  abbrev pub Dropped : Products.Db P → Shop O P C Y → Type 0
  Dropped products s =
      (progress_of O s.orders (new_id O s0.orders) ≡ some cancelled)
      × (s.products ≡ products)
      × (s.payments ≡ s0.payments)

  pub failed_stage :
      (products : Products.Db P) (cache : C.Store) (reason : String)
      → Dropped products (
          reply_stage DO DP DY at uuid
            (some (Payload.stock_reservation_failed (failed_event O s0.orders input reason)))
            (stocked (at 0) input s0 products cache))
  unfolding same_step order_cancelled_event
  failed_stage products cache reason =
      let event = failed_event O s0.orders input reason in
      let db3 =
        (on_reply O DO (at 2) (stock_reservation_failed event)
          (created O (at 0) input s0.orders)).1 in
      let s3 : Shop O P C Y = record (stocked (at 0) input s0 products cache) { orders = db3 } in
      let sends =
        sent-stock_reservation_failed O DO (at 2) (created O (at 0) input s0.orders)
          (created-IsConsistent O (at 0) input s0.orders c) (saga_row O (at 0) input s0.orders)
          (order_row O (at 0) input s0.orders) (created-pending O (at 0) input s0.orders) event
          (created-Waiting O (at 0) input s0.orders) (created-found O (at 0) input s0.orders) in
      subst (λ m. Dropped products (pay_stage DO DP DY at uuid m s3)) (sym sends)
        (subst (λ m. Dropped products (to_orders DO DP DY (at 4) m s3))
          (sym (sent-same Y.outbox s0.payments.outbox))
          (
            reply-progress O DO (at 2) (created O (at 0) input s0.orders)
                (stock_reservation_failed event) (new_id O s0.orders) reserving
                (created-IsConsistent O (at 0) input s0.orders c) refl
                (created-reserving O (at 0) input s0.orders c),
            refl,
            refl,
          ))
