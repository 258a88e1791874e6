-- ===== src/Order/Orchestrator/Effects.antt =====
-- The bodies of the handlers as equations, where the saga waits and its order is there.

use shop_microservices.Prelude.{
  ℕ, String, ◌==◌, eq_iff, ◌≡◌, refl, ◌⊎◌, some, inl, inr, arith, if◌then◌else◌,
}
use shop_microservices.Shared.{KafkaTopic}
use shop_microservices.Shared.Messages.{
  StockReservedEvent, PaymentProcessedEvent, PaymentFailedEvent,
}
use shop_microservices.Exec.{ok}
use shop_microservices.Order.Status.{OrderStatus, SagaStep}
use shop_microservices.Order.Entity.{Order, OrderItem, with_details}
use shop_microservices.Order.Entity
use shop_microservices.Order.Saga
use shop_microservices.Order.Saga.{Saga, max_retries}
use shop_microservices.Order.Persistence.{
  OrderOrmEntity, SagaStateOrmEntity, order_to_domain, saga_to_domain,
}
use shop_microservices.Order.Persistence.Repositories.{Tables, Db, update_order, update_saga, write}
use shop_microservices.Order.Orchestrator.{
  load_saga_for_step, perform_cancellation, stock_reserved_body, payment_processed_body,
  payment_failed_body, process_payment_command, order_confirmed_event, order_cancelled_event,
  release_stock_command,
}
use shop_microservices.Order.Orchestrator.Consistency.{status_at, status_at-update_order}
use shop_microservices.Order.Orchestrator.Loading.{Waiting, order_loaded}

module _ (T : Tables) (now : ℕ) (db : Db T) where
  abbrev pub confirmed_order : StockReservedEvent → OrderOrmEntity → Order
  confirmed_order event o =
      let order = order_to_domain o in
      record order {
        status = OrderStatus.confirmed;
        total = event.total;
        items = with_details event.items order.items;
        updated_at = now;
      }

  abbrev pub cancelled_order : OrderOrmEntity → Order
  cancelled_order o = record (order_to_domain o) {
    status = OrderStatus.cancelled;
    updated_at = now;
  }

  -- Only the status of the updated order changes.
  pub order_statuses :
      (order_id : String) {step : SagaStep} (s : SagaStateOrmEntity) (o : OrderOrmEntity)
      (order : Order)
      → Waiting T db order_id step s
      → T.orders.find_one db.orders order_id ≡ some o
      → order.id ≡ o.id
      → (k : String)
      → status_at T (update_order T now order db).1.orders k
        ≡ (if s.order_id == k then some order.status else status_at T db.orders k)
  order_statuses order_id s o order w f id k = ground (
    arith,
    status_at-update_order T now order db k,
    T.orders.key-find_one db.orders order_id o f,
    w.of_order,
    eq_iff s.order_id k,
    eq_iff order.id k,
  )

  -- The status of a confirmed order stays.
  pub kept_statuses :
      (order_id : String) {step : SagaStep} (s : SagaStateOrmEntity) (o : OrderOrmEntity)
      → Waiting T db order_id step s
      → T.orders.find_one db.orders order_id ≡ some o
      → o.status ≡ OrderStatus.confirmed
      → (k : String)
      → status_at T db.orders k
        ≡ (if s.order_id == k then some OrderStatus.confirmed else status_at T db.orders k)
  kept_statuses order_id s o w f e k = ground (arith, w.of_order, eq_iff s.order_id k)

  pub confirm_pending :
      (event : StockReservedEvent) (o : OrderOrmEntity)
      → o.status ≡ OrderStatus.pending
      → Entity.confirm now (order_to_domain o) event.total event.items
        ≡ ok (confirmed_order event o)
  unfolding Entity.confirm order_to_domain
  confirm_pending event o e = rw e

  pub advance_ok :
      (s : SagaStateOrmEntity) (step next : SagaStep)
      → s.current_step ≡ step
      → Saga.advance_map step ≡ some next
      → Saga.advance now (saga_to_domain s) ≡ ok (Saga.advance_to now (saga_to_domain s) next)
  unfolding Saga.advance saga_to_domain
  advance_ok s step next e h = rw (e, h, Saga.advance)

  pub compensate_ok :
      (o : OrderOrmEntity)
      → (o.status ≡ OrderStatus.pending) ⊎ (o.status ≡ OrderStatus.confirmed)
      → Entity.compensate now (order_to_domain o) ≡ ok (cancelled_order o)
  unfolding Entity.compensate order_to_domain
  compensate_ok o (inl e) = rw e
  compensate_ok o (inr e) = rw e

  pub stock_reserved_effect :
      (event : StockReservedEvent) (s : SagaStateOrmEntity) (o : OrderOrmEntity)
      → load_saga_for_step T event.order_id SagaStep.reserve_stock db ≡ some (saga_to_domain s)
      → s.current_step ≡ SagaStep.reserve_stock
      → T.orders.find_one db.orders event.order_id ≡ some o
      → o.status ≡ OrderStatus.pending
      → stock_reserved_body T now event db
        ≡ write T now event.order_id KafkaTopic.process_payment event.order_id
            (process_payment_command event.order_id
              (saga_to_domain s)
              (order_to_domain o)
              event.total)
            (update_saga T now
              (Saga.advance_to now (saga_to_domain s) SagaStep.process_payment)
              (update_order T now (confirmed_order event o) db).1).1
  unfolding stock_reserved_body update_order update_saga
  stock_reserved_effect event s o l step f pending = rw (
    l,
    order_loaded T event.order_id o db f,
    confirm_pending event o pending,
    advance_ok s SagaStep.reserve_stock SagaStep.process_payment step
        (unfold Saga.advance_map in refl),
  )

  pub cancellation_effect :
      (order_id reason : String) (s : SagaStateOrmEntity) (o : OrderOrmEntity)
      → T.orders.find_one db.orders order_id ≡ some o
      → (o.status ≡ OrderStatus.pending) ⊎ (o.status ≡ OrderStatus.confirmed)
      → perform_cancellation T now (saga_to_domain s) order_id reason db
        ≡ write T now order_id KafkaTopic.order_cancelled order_id
            (order_cancelled_event now (saga_to_domain s) (order_to_domain o) reason)
            (update_saga T now
              (Saga.fail now (saga_to_domain s) reason)
              (update_order T now (cancelled_order o) db).1).1
  unfolding perform_cancellation update_order update_saga
  cancellation_effect order_id reason s o f status =
      rw (order_loaded T order_id o db f, compensate_ok o status)

  pub payment_processed_effect :
      (event : PaymentProcessedEvent) (s : SagaStateOrmEntity) (o : OrderOrmEntity)
      → load_saga_for_step T event.order_id SagaStep.process_payment db ≡ some (saga_to_domain s)
      → s.current_step ≡ SagaStep.process_payment
      → T.orders.find_one db.orders event.order_id ≡ some o
      → payment_processed_body T now event db
        ≡ write T now event.order_id KafkaTopic.order_confirmed event.order_id
            (order_confirmed_event now (saga_to_domain s) (order_to_domain o))
            (update_saga T now (Saga.advance_to now (saga_to_domain s) SagaStep.completed) db).1
  unfolding payment_processed_body update_saga
  payment_processed_effect event s o l step f =
      let saga = Saga.advance_to now (saga_to_domain s) SagaStep.completed in
      rw (
        l,
        advance_ok s SagaStep.process_payment SagaStep.completed step
            (unfold Saga.advance_map in refl),
        order_loaded T event.order_id o (update_saga T now saga db).1 f,
      )

  pub payment_failed_effect :
      (event : PaymentFailedEvent) (s : SagaStateOrmEntity) (o : OrderOrmEntity)
      → load_saga_for_step T event.order_id SagaStep.process_payment db ≡ some (saga_to_domain s)
      → T.orders.find_one db.orders event.order_id ≡ some o
      → payment_failed_body T now event db
        ≡ write T now event.order_id KafkaTopic.release_stock event.order_id
            (release_stock_command event.order_id (saga_to_domain s) (order_to_domain o))
            (update_saga T now (Saga.start_compensation now (saga_to_domain s) event.reason) db).1
  unfolding payment_failed_body update_saga
  payment_failed_effect event s o l f =
      let saga = Saga.start_compensation now (saga_to_domain s) event.reason in
      rw (l, order_loaded T event.order_id o (update_saga T now saga db).1 f)
