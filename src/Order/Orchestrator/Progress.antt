-- ===== src/Order/Orchestrator/Progress.antt =====
-- What the orchestrator promises for one order: a machine of five states that the replies drive. The
-- handlers with their tables, transactions and locks implement it.
pub mod Rows
pub mod Refinement
pub mod Bound
use mathlib.Core.Option
use shop_microservices.Prelude.{ℕ, String, ◌==◌, Option, none, some, List, [], ◌∷◌, if◌then◌else◌}
use shop_microservices.Order.Status.{OrderStatus, SagaStep, same_step}
use shop_microservices.Order.Persistence.{SagaStateOrmEntity}
use shop_microservices.Order.Persistence.Repositories.{Tables, Db}
use shop_microservices.Order.Orchestrator.{
  SagaReply, stock_reserved, stock_reservation_failed, payment_processed, payment_failed,
  stock_released,
}
use shop_microservices.Order.Orchestrator.Safety.{reply_order}
use shop_microservices.Order.Orchestrator.Consistency.{status_at}

-- How far an order has come.
pub record Progress : Type 0 where
  pub step : SagaStep
  pub status : OrderStatus

-- An order that waits for its stock, or for its payment, or for the return of its stock; one that is
-- paid; one that was cancelled.
abbrev pub reserving : Progress
reserving = record { step = SagaStep.reserve_stock; status = OrderStatus.pending }

abbrev pub paying : Progress
paying = record { step = SagaStep.process_payment; status = OrderStatus.confirmed }

abbrev pub releasing : Progress
releasing = record { step = SagaStep.release_stock; status = OrderStatus.confirmed }

abbrev pub paid : Progress
paid = record { step = SagaStep.completed; status = OrderStatus.confirmed }

abbrev pub cancelled : Progress
cancelled = record { step = SagaStep.failed; status = OrderStatus.cancelled }

abbrev pub from_step : SagaStep → Progress → Progress → Progress
from_step step after p = if same_step p.step step then after else p

-- What a reply about an order does to it: it moves the order if it answers the step that the order is
-- in, and otherwise it is ignored.
abbrev pub answer : SagaReply → Progress → Progress
answer (stock_reserved e) = from_step SagaStep.reserve_stock paying
answer (stock_reservation_failed e) = from_step SagaStep.reserve_stock cancelled
answer (payment_processed e) = from_step SagaStep.process_payment paid
answer (payment_failed e) = from_step SagaStep.process_payment releasing
answer (stock_released e) = from_step SagaStep.release_stock cancelled

abbrev pub answer_for : String → SagaReply → Progress → Progress
answer_for order_id reply p = if reply_order reply == order_id then answer reply p else p

-- The replies in the order in which they arrive.
pub answers : String → List (ℕ × SagaReply) → Progress → Progress
answers order_id [] p = p
answers order_id ((now, reply) ∷ rest) p = answers order_id rest (answer_for order_id reply p)

abbrev pub both : Option SagaStateOrmEntity → Option OrderStatus → Option Progress
both none status = none
both (some s) none = none
both (some s) (some status) = some (record { step = s.current_step; status = status })

module _ (T : Tables) where
  abbrev pub saga_of : Db T → String → Option SagaStateOrmEntity
  saga_of db order_id = T.sagas.find_where db.sagas (λ s. s.order_id == order_id)

  -- The progress of an order in the database, if it has a saga and a row.
  abbrev pub progress_of : Db T → String → Option Progress
  progress_of db order_id = both (saga_of db order_id) (status_at T db.orders order_id)
