-- ===== src/Order/Saga.antt =====
-- saga.ts of the domain layer: the immutable saga and its transitions. The time of a call is an
-- argument.
use shop_microservices.Prelude.{
  ℕ, ◌+◌, ◌*◌, ◌^◌, String, Bool, ◌&&◌, Option, none, some, leb, if◌then◌else◌,
}
use shop_microservices.Exec.{Result, ok, err}
use shop_microservices.Order.Status.{
  SagaStep, SagaStatus, OrderError, invalid_saga_transition, same_step, is_running,
}

pub record Saga : Type 0 where
  pub id : String
  pub order_id : String
  pub correlation_id : String
  pub current_step : SagaStep
  pub status : SagaStatus
  pub retry_count : ℕ
  pub last_error : Option String
  pub next_retry_at : Option ℕ
  pub created_at : ℕ
  pub updated_at : ℕ

abbrev pub retry_timeout_ms : ℕ
retry_timeout_ms = 30000

abbrev pub max_retries : ℕ
max_retries = 3

-- `ADVANCE_MAP`
unfoldable pub advance_map : SagaStep → Option SagaStep
advance_map SagaStep.reserve_stock = some SagaStep.process_payment
advance_map SagaStep.process_payment = some SagaStep.completed
advance_map SagaStep.release_stock = none
advance_map SagaStep.completed = none
advance_map SagaStep.failed = none

-- `Saga.create`
unfoldable pub create : ℕ → String → String → Saga
create now order_id correlation_id = record {
  id = "";
  order_id = order_id;
  correlation_id = correlation_id;
  current_step = SagaStep.reserve_stock;
  status = SagaStatus.running;
  retry_count = 0;
  last_error = none;
  next_retry_at = some (now + retry_timeout_ms);
  created_at = now;
  updated_at = now;
}

unfoldable pub can_handle : Saga → SagaStep → Bool
unfolding is_running same_step
can_handle saga step = is_running saga.status && same_step saga.current_step step

-- The saga in the step that `advance` found.
unfoldable pub advance_to : ℕ → Saga → SagaStep → Saga
unfolding same_step
advance_to now saga next =
    let is_completed = same_step next SagaStep.completed in
    record saga {
      current_step = next;
      status = if is_completed then SagaStatus.completed else SagaStatus.running;
      next_retry_at = if is_completed then none else some (now + retry_timeout_ms);
      updated_at = now;
    }

unfoldable pub advance : ℕ → Saga → Result OrderError Saga
unfolding advance_map advance_to
advance now saga = elim (advance_map saga.current_step) [
  | none ↦ err (invalid_saga_transition saga.current_step)
  | some next ↦ ok (advance_to now saga next)
]

unfoldable pub start_compensation : ℕ → Saga → String → Saga
start_compensation now saga reason = record saga {
  current_step = SagaStep.release_stock;
  status = SagaStatus.running;
  last_error = some reason;
  next_retry_at = some (now + retry_timeout_ms);
  updated_at = now;
}

unfoldable pub fail : ℕ → Saga → String → Saga
fail now saga reason = record saga {
  current_step = SagaStep.failed;
  status = SagaStatus.failed;
  last_error = some reason;
  next_retry_at = none;
  updated_at = now;
}

unfoldable pub schedule_retry : ℕ → Saga → Saga
schedule_retry now saga =
    let next_count = saga.retry_count + 1 in
    record saga {
      retry_count = next_count;
      next_retry_at = some (now + retry_timeout_ms * 2 ^ next_count);
      updated_at = now;
    }

unfoldable pub has_exceeded_max_retries : Saga → Bool
has_exceeded_max_retries saga = leb max_retries saga.retry_count
