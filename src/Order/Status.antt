-- ===== src/Order/Status.antt =====
-- The enums of order.ts and saga.ts, and orders.errors.ts.
use shop_microservices.Prelude.{String, Bool, true, false, ◌≡◌, arith}

pub data OrderStatus : Type 0 where
  pending confirmed cancelled completed : OrderStatus

pub data SagaStep : Type 0 where
  reserve_stock process_payment release_stock completed failed : SagaStep

pub data SagaStatus : Type 0 where
  running completed failed : SagaStatus

-- What the classes of the service throw, and the driver's error on a violated unique column.
pub data OrderError : Type 0 where
  order_not_found : String → OrderError
  invalid_order_transition : OrderStatus → OrderStatus → OrderError
  invalid_saga_transition : SagaStep → OrderError
  query_failed : OrderError

-- `===` on the enums.
unfoldable pub same_step : SagaStep → SagaStep → Bool
same_step SagaStep.reserve_stock SagaStep.reserve_stock = true
same_step SagaStep.process_payment SagaStep.process_payment = true
same_step SagaStep.release_stock SagaStep.release_stock = true
same_step SagaStep.completed SagaStep.completed = true
same_step SagaStep.failed SagaStep.failed = true
same_step _ _ = false

unfoldable pub is_running : SagaStatus → Bool
is_running SagaStatus.running = true
is_running SagaStatus.completed = false
is_running SagaStatus.failed = false

pub same_step-eq : (a b : SagaStep) → same_step a b ≡ true → a ≡ b
unfolding same_step
same_step-eq a b h = ground arith

pub same_step_refl : (a : SagaStep) → same_step a a ≡ true
unfolding same_step
same_step_refl a = ground arith
