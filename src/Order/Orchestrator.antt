-- ===== src/Order/Orchestrator.antt =====
-- saga-orchestrator.service.ts: one handler for each reply of the participants, and the timer that
-- retries stuck sagas. Logging is left out.
pub mod Retry
pub mod Loading
pub mod Effects
pub mod Replies
pub mod Safety
pub mod Progress
pub mod Lines
pub mod SagaIds
pub mod Consistency
mod Examples
use Prim.Native.String.{◌++◌ as ◌++ₛ◌}
use shop_microservices.Prelude.{ℕ, String, Option, none, some, List, map, Bool, if◌then◌else◌}
use shop_microservices.Shared.{KafkaTopic}
use shop_microservices.Shared.Messages.{
  BaseCommand, BaseOrderEvent, StockItem, OrderCreatedEventItem, ReserveStockCommand,
  ReleaseStockCommand, ProcessPaymentCommand, StockReservedEvent, StockReservationFailedEvent,
  PaymentProcessedEvent, PaymentFailedEvent, OrderConfirmedEvent, OrderCancelledEvent, Payload,
}
use shop_microservices.Exec.{DataSource, pure, gets, lift, or_throw, ◌>>=◌, ◌>>◌}
use shop_microservices.Order.Status.{SagaStep, OrderError, order_not_found}
use shop_microservices.Order.Entity
use shop_microservices.Order.Entity.{Order, OrderItem}
use shop_microservices.Order.Saga
use shop_microservices.Order.Saga.{Saga}
use shop_microservices.Order.Persistence.Repositories.{
  Tables, Db, Action, find_order, update_order, find_by_order_id_with_lock, update_saga, write,
}

-- `${saga.id}-pay`
unfoldable pub pay_command_id : Saga → String
pay_command_id saga = saga.id ++ₛ "-pay"

-- `${saga.id}-release`
unfoldable pub release_command_id : Saga → String
release_command_id saga = saga.id ++ₛ "-release"

unfoldable pub stock_item : OrderItem → StockItem
stock_item i = record { product_id = i.product_id; quantity = i.quantity }

unfoldable pub event_item : OrderItem → OrderCreatedEventItem
event_item i = record {
  product_id = i.product_id;
  name = i.product_name;
  quantity = i.quantity;
  unit_price = i.unit_price;
}

unfoldable pub command_base : String → String → Saga → BaseCommand
command_base command_id order_id saga = record {
  command_id = command_id;
  order_id = order_id;
  correlation_id = saga.correlation_id;
}

unfoldable pub event_base : Order → Saga → BaseOrderEvent
event_base order saga = record {
  order_id = order.id;
  user_id = order.user_id;
  user_email = order.user_email;
  correlation_id = saga.correlation_id;
}

unfoldable pub reserve_stock_command : String → Saga → Order → Payload
unfolding command_base stock_item
reserve_stock_command order_id saga order =
    Payload.reserve_stock
      (record { base = command_base saga.id order_id saga; items = map stock_item order.items })

unfoldable pub process_payment_command : String → Saga → Order → ℕ → Payload
unfolding command_base pay_command_id
process_payment_command order_id saga order amount = Payload.process_payment (record {
  base = command_base (pay_command_id saga) order_id saga;
  user_id = order.user_id;
  amount = amount;
})

unfoldable pub release_stock_command : String → Saga → Order → Payload
unfolding command_base release_command_id stock_item
release_stock_command order_id saga order = Payload.release_stock (record {
  base = command_base (release_command_id saga) order_id saga;
  items = map stock_item order.items;
})

unfoldable pub order_confirmed_event : ℕ → Saga → Order → Payload
unfolding event_base event_item
order_confirmed_event now saga order = Payload.order_confirmed (record {
  base = event_base order saga;
  items = map event_item order.items;
  total = order.total;
  confirmed_at = now;
})

unfoldable pub order_cancelled_event : ℕ → Saga → Order → String → Payload
unfolding event_base
order_cancelled_event now saga order reason =
    Payload.order_cancelled
      (record { base = event_base order saga; reason = reason; cancelled_at = now })

-- `saga.lastError ?? 'Payment failed'`
unfoldable pub release_reason : Saga → String
release_reason saga = elim saga.last_error [ none ↦ "Payment failed" | some reason ↦ reason ]

module _ (T : Tables) where
  -- `if (!saga) return;`
  abbrev pub when_loaded : Option Saga → (Saga → Action T (Unit {0})) → Action T (Unit {0})
  when_loaded none body = pure tt
  when_loaded (some saga) body = body saga

  abbrev pub guarded : SagaStep → Option Saga → Option Saga
  guarded step none = none
  guarded step (some saga) = if Saga.can_handle saga step then some saga else none

  unfoldable pub load_saga_for_step : String → SagaStep → Db T → Option Saga
  load_saga_for_step order_id step db = guarded step (find_by_order_id_with_lock T order_id db)

  unfoldable pub load_order : String → Action T Order
  load_order order_id = do
    order ← gets (find_order T order_id)
    or_throw order (order_not_found order_id)

module _ (T : Tables) (now : ℕ) where
  unfoldable pub perform_cancellation : Saga → String → String → Action T (Unit {0})
  perform_cancellation saga order_id reason = do
    order ← load_order T order_id
    cancelled ← lift (Entity.compensate now order)
    update_order T now cancelled
    update_saga T now (Saga.fail now saga reason)
    write T now order_id KafkaTopic.order_cancelled order_id
        (order_cancelled_event now saga order reason)

  unfoldable pub stock_reserved_body : StockReservedEvent → Action T (Unit {0})
  stock_reserved_body event = do
    loaded ← gets (load_saga_for_step T event.order_id SagaStep.reserve_stock)
    when_loaded T loaded λ saga. do
      order ← load_order T event.order_id
      confirmed ← lift (Entity.confirm now order event.total event.items)
      update_order T now confirmed
      advanced ← lift (Saga.advance now saga)
      update_saga T now advanced
      write T now event.order_id KafkaTopic.process_payment event.order_id
          (process_payment_command event.order_id saga order event.total)

  unfoldable pub stock_reservation_failed_body : StockReservationFailedEvent → Action T (Unit {0})
  stock_reservation_failed_body event = do
    loaded ← gets (load_saga_for_step T event.order_id SagaStep.reserve_stock)
    when_loaded T loaded λ saga. perform_cancellation saga event.order_id event.reason

  unfoldable pub payment_processed_body : PaymentProcessedEvent → Action T (Unit {0})
  payment_processed_body event = do
    loaded ← gets (load_saga_for_step T event.order_id SagaStep.process_payment)
    when_loaded T loaded λ saga. do
      advanced ← lift (Saga.advance now saga)
      update_saga T now advanced
      order ← load_order T event.order_id
      write T now event.order_id KafkaTopic.order_confirmed event.order_id
          (order_confirmed_event now saga order)

  unfoldable pub payment_failed_body : PaymentFailedEvent → Action T (Unit {0})
  payment_failed_body event = do
    loaded ← gets (load_saga_for_step T event.order_id SagaStep.process_payment)
    when_loaded T loaded λ saga. do
      update_saga T now (Saga.start_compensation now saga event.reason)
      order ← load_order T event.order_id
      write T now event.order_id KafkaTopic.release_stock event.order_id
          (release_stock_command event.order_id saga order)

  unfoldable pub stock_released_body : BaseCommand → Action T (Unit {0})
  stock_released_body event = do
    loaded ← gets (load_saga_for_step T event.order_id SagaStep.release_stock)
    when_loaded T loaded λ saga. perform_cancellation saga event.order_id (release_reason saga)

-- A reply of a participant.
pub data SagaReply : Type 0 where
  stock_reserved : StockReservedEvent → SagaReply
  stock_reservation_failed : StockReservationFailedEvent → SagaReply
  payment_processed : PaymentProcessedEvent → SagaReply
  payment_failed : PaymentFailedEvent → SagaReply
  stock_released : BaseCommand → SagaReply

module _ (T : Tables) (now : ℕ) where
  unfoldable pub reply_body : SagaReply → Action T (Unit {0})
  unfolding stock_reserved_body stock_reservation_failed_body payment_processed_body
      payment_failed_body stock_released_body
  reply_body (stock_reserved e) = stock_reserved_body T now e
  reply_body (stock_reservation_failed e) = stock_reservation_failed_body T now e
  reply_body (payment_processed e) = payment_processed_body T now e
  reply_body (payment_failed e) = payment_failed_body T now e
  reply_body (stock_released e) = stock_released_body T now e

-- `onStockReserved` and the other four: the body in a transaction.
unfoldable pub on_reply :
    (T : Tables) → DataSource OrderError (Db T) → ℕ → SagaReply → Action T (Unit {0})
on_reply T D now reply = D.transaction (Unit {0}) (reply_body T now reply)
