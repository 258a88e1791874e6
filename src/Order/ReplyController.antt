-- ===== src/Order/ReplyController.antt =====
-- saga-reply.controller.ts: the Kafka handlers of the replies, with the messages of orders.errors.ts.
pub mod Delivery
use Prim.Native.String.{◌++◌ as ◌++ₛ◌}
use shop_microservices.Prelude.{ℕ, String, none}
use shop_microservices.Exec.{Result, ok, err, DataSource, pure, throw, try_catch}
use shop_microservices.Kafka.{Handler, SubscribeOptions}
use shop_microservices.Order.Status.{
  OrderStatus, SagaStep, OrderError, order_not_found, invalid_order_transition,
  invalid_saga_transition, query_failed,
}
use shop_microservices.Order.Persistence.Repositories.{Tables, Db, Action}
use shop_microservices.Order.Orchestrator.{SagaReply, on_reply}

unfoldable pub status_name : OrderStatus → String
status_name OrderStatus.pending = "pending"
status_name OrderStatus.confirmed = "confirmed"
status_name OrderStatus.cancelled = "cancelled"
status_name OrderStatus.completed = "completed"

unfoldable pub step_name : SagaStep → String
step_name SagaStep.reserve_stock = "reserve_stock"
step_name SagaStep.process_payment = "process_payment"
step_name SagaStep.release_stock = "release_stock"
step_name SagaStep.completed = "completed"
step_name SagaStep.failed = "failed"

-- The message of a database error is the driver's.
unfoldable pub error_message : String → OrderError → String
unfolding status_name step_name
error_message driver (order_not_found id) = "Order " ++ₛ (id ++ₛ " not found")
error_message driver (invalid_order_transition from to) =
    "Cannot transition order from " ++ₛ (status_name from ++ₛ (" to " ++ₛ status_name to))
error_message driver (invalid_saga_transition step) =
    "Cannot advance saga from step " ++ₛ step_name step
error_message driver query_failed = driver

module _ (T : Tables) where
  -- An order that is gone cannot come back: the event is acknowledged.
  unfoldable pub on_error : OrderError → Action T (Unit {0})
  on_error (order_not_found id) = pure tt
  on_error (invalid_order_transition from to) = throw (invalid_order_transition from to)
  on_error (invalid_saga_transition step) = throw (invalid_saga_transition step)
  on_error query_failed = throw query_failed

  -- `handle(correlationId, fn)`
  unfoldable pub handle : Action T (Unit {0}) → Action T (Unit {0})
  unfolding on_error
  handle fn = try_catch fn on_error

  abbrev pub with_message :
      String → Result OrderError (Unit {0}) × Db T → Result String (Unit {0}) × Db T
  with_message driver (ok a, db) = (ok a, db)
  with_message driver (err e, db) = (err (error_message driver e), db)

  -- The handler of a subscription; `clock n` is the time of the n-th attempt.
  unfoldable pub reply_handler :
      DataSource OrderError (Db T) → String → (ℕ → ℕ) → Handler SagaReply (Db T)
  unfolding handle
  reply_handler D driver clock attempt e db =
      with_message driver (handle (on_reply T D (clock attempt) e.payload) db)

  unfoldable pub reply_subscription :
      DataSource OrderError (Db T) → String → (ℕ → ℕ) → String → SubscribeOptions SagaReply (Db T)
  unfolding reply_handler
  reply_subscription D driver clock topic = record {
    topic = topic;
    handler = reply_handler D driver clock;
    max_retries = none;
  }
