-- ===== src/Order/Orchestrator/Retry.antt =====
-- `retryStuckSagas` and `resendCommand` of saga-orchestrator.service.ts.
pub mod Safety
use shop_microservices.Prelude.{ℕ, String, Bool, List, [], ◌∷◌, if◌then◌else◌}
use shop_microservices.Shared.{KafkaTopic}
use shop_microservices.Exec.{DataSource, pure, gets, ◌>>=◌, ◌>>◌}
use shop_microservices.Order.Status.{SagaStep, OrderError}
use shop_microservices.Order.Entity.{Order}
use shop_microservices.Order.Saga
use shop_microservices.Order.Saga.{Saga}
use shop_microservices.Order.Persistence.Repositories.{
  Tables, Db, Action, find_by_id_skip_locked, find_stuck, update_saga, write,
}
use shop_microservices.Order.Orchestrator.{
  load_order, when_loaded, reserve_stock_command, process_payment_command, release_stock_command,
}

module _ (T : Tables) (now : ℕ) where
  -- The three tests on the step exclude one another.
  unfoldable pub resend_command : SagaStep → Saga → Order → Action T (Unit {0})
  resend_command SagaStep.reserve_stock saga order =
      write T now saga.order_id KafkaTopic.reserve_stock saga.order_id
        (reserve_stock_command saga.order_id saga order)
  resend_command SagaStep.process_payment saga order =
      write T now saga.order_id KafkaTopic.process_payment saga.order_id
        (process_payment_command saga.order_id saga order order.total)
  resend_command SagaStep.release_stock saga order =
      write T now saga.order_id KafkaTopic.release_stock saga.order_id
        (release_stock_command saga.order_id saga order)
  resend_command SagaStep.completed saga order = pure tt
  resend_command SagaStep.failed saga order = pure tt

  unfoldable pub retry_fresh : Saga → Action T (Unit {0})
  retry_fresh fresh =
      if Saga.has_exceeded_max_retries fresh
      then update_saga T now (Saga.fail now fresh "Max retries exceeded")
      else do
        update_saga T now (Saga.schedule_retry now fresh)
        order ← load_order T fresh.order_id
        resend_command fresh.current_step fresh order

  -- The transaction for one stuck saga; `is_locked` says which rows other transactions hold.
  unfoldable pub retry_body : (String → Bool) → String → Action T (Unit {0})
  retry_body is_locked id = do
    fresh ← gets (find_by_id_skip_locked T is_locked id)
    when_loaded T fresh retry_fresh

module _ (T : Tables) (D : DataSource OrderError (Db T)) (now : ℕ) (is_locked : String → Bool) where
  -- An error in one transaction is logged, and the loop goes on.
  unfoldable pub retry_each : List Saga → Db T → Db T
  unfolding retry_body
  retry_each [] db = db
  retry_each (saga ∷ stuck) db =
      retry_each stuck (D.transaction (Unit {0}) (retry_body T now is_locked saga.id) db).1

  -- `query_fails` says whether the query for stuck sagas throws.
  unfoldable pub retry_stuck_sagas : Bool → Db T → Db T
  unfolding retry_each find_stuck
  retry_stuck_sagas query_fails db =
      if query_fails then db else retry_each (find_stuck T now 10 db) db
