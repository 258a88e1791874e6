-- ===== src/Order/Orchestrator/Replies.antt =====
-- What each reply does to a consistent database, step by step.

use shop_microservices.Prelude.{
  ℕ, ◌≤◌, String, ◌==◌, ◌≡◌, refl, false, ◌⊎◌, none, some, inl, inr, ap, subst, sym, if◌then◌else◌,
}
use shop_microservices.Shared.{KafkaTopic}
use shop_microservices.Shared.Messages.{
  StockReservedEvent, StockReservationFailedEvent, PaymentProcessedEvent, PaymentFailedEvent,
  BaseCommand, Payload,
}
use shop_microservices.Exec.{Result, ok}
use shop_microservices.Order.Status.{OrderStatus, SagaStep, OrderError, same_step}
use shop_microservices.Order.Saga
use shop_microservices.Order.Saga.{Saga, max_retries}
use shop_microservices.Order.Persistence.{
  OrderOrmEntity, SagaStateOrmEntity, order_to_domain, saga_to_domain,
}
use shop_microservices.Order.Persistence.Repositories.{
  Tables, Db, update_order, update_saga, write, saga_patch,
}
use shop_microservices.Order.Orchestrator.{
  load_saga_for_step, perform_cancellation, stock_reserved_body, stock_reservation_failed_body,
  payment_processed_body, payment_failed_body, stock_released_body, release_reason,
}
use shop_microservices.Order.Orchestrator.Consistency.{
  IsConsistent, Moved, Agrees, status_at, status_of_step, moved-IsConsistent,
}
use shop_microservices.Order.Orchestrator.Loading.{
  Waiting, loaded_cases, order_of_Waiting, saga-Moved, nobody_waits, Frame, Moves, Frame-refl,
  Frame-Moved,
}
use shop_microservices.Order.Orchestrator.Effects.{
  confirmed_order, cancelled_order, order_statuses, kept_statuses, stock_reserved_effect,
  cancellation_effect, payment_processed_effect, payment_failed_effect,
}

module _ (T : Tables) (now : ℕ) (db : Db T) (c : IsConsistent T db) where
  -- The handler returns, the invariant holds after it, no saga of the order waits for the step any
  -- longer, the other sagas and orders are as they were, and a saga that waited is now in the step
  -- `next` with its order in `status`.
  abbrev pub Handled :
      String → SagaStep → SagaStep → OrderStatus → Result OrderError (Unit {0}) × Db T → Type 0
  Handled order_id step next status r =
      (r.0 ≡ ok tt)
      × IsConsistent T r.1
      × (load_saga_for_step T order_id step r.1 ≡ none)
      × Frame T db order_id step r.1
      × Moves T db order_id step next status r.1

  -- A reply that is ignored.
  ignored :
      (order_id : String) (step next : SagaStep) (status : OrderStatus)
      (r : Result OrderError (Unit {0}) × Db T)
      → load_saga_for_step T order_id step db ≡ none
      → r ≡ (ok tt, db)
      → Handled order_id step next status r
  ignored order_id step next status r none_waits e =
      rw e (refl, c, none_waits, Frame-refl T db order_id step, inl (none_waits, refl))

  handled :
      (order_id : String) (step : SagaStep) (r : Result OrderError (Unit {0}) × Db T) (db' : Db T)
      (s after : SagaStateOrmEntity) (o : OrderStatus)
      → r ≡ (ok tt, db')
      → Waiting T db order_id step s
      → same_step after.current_step step ≡ false
      → Moved T db db' s after o
      → Handled order_id step after.current_step o r
  handled order_id step r db' s after o e w left m =
      let c' = moved-IsConsistent T db db' s after o m c in
      rw e (
        refl,
        c',
        nobody_waits T db db' s after o order_id step m c' w.of_order left,
        Frame-Moved T db db' order_id step s after o w m,
        inr (s, after, w, refl, m),
      )

  -- Every handler that acts ends in an update of the saga and a message.
  moved_by :
      (order_id : String) (step : SagaStep) (s : SagaStateOrmEntity) (saga : Saga) (o : OrderStatus)
      (r : Result OrderError (Unit {0}) × Db T) (db0 : Db T) (aggregate key : String)
      (topic : KafkaTopic) (payload : Payload)
      → Waiting T db order_id step s
      → r ≡ write T now aggregate topic key payload (update_saga T now saga db0).1
      → db0.sagas ≡ db.sagas
      → saga.id ≡ s.id
      → ((k : String)
          → status_at T db0.orders k
            ≡ (if s.order_id == k then some o else status_at T db.orders k))
      → Agrees saga.current_step o
      → saga.status ≡ status_of_step saga.current_step
      → saga.retry_count ≤ max_retries
      → same_step saga.current_step step ≡ false
      → Handled order_id step saga.current_step o r
  unfolding write update_saga saga_patch
  moved_by order_id step s saga o r db0 aggregate key topic payload w e sagas id orders agrees
        coherent bounded left =
      let db' : Db T = (write T now aggregate topic key payload (update_saga T now saga db0).1).1 in
      handled order_id step r db' s (saga_patch now saga s) o e w left (
        saga-Moved T now db db' s saga o w.stored id
          (ap (λ t. T.sagas.update t saga.id (saga_patch now saga)) sagas) orders agrees coherent
          bounded)

  pub cancellation-Handled :
      (order_id reason : String) (step : SagaStep) (s : SagaStateOrmEntity) (o : OrderOrmEntity)
      → Waiting T db order_id step s
      → T.orders.find_one db.orders order_id ≡ some o
      → (o.status ≡ OrderStatus.pending) ⊎ (o.status ≡ OrderStatus.confirmed)
      → same_step SagaStep.failed step ≡ false
      → Handled order_id step SagaStep.failed OrderStatus.cancelled
          (perform_cancellation T now (saga_to_domain s) order_id reason db)
  unfolding Saga.fail
  cancellation-Handled order_id reason step s o w f status left =
      moved_by order_id step s (Saga.fail now (saga_to_domain s) reason) OrderStatus.cancelled _ _ _
        _ _ _ w (cancellation_effect T now db order_id reason s o f status)
        (unfold update_order in refl) (unfold Saga.fail saga_to_domain in refl)
        (order_statuses T now db order_id s o (cancelled_order T now db o) w f
          (unfold order_to_domain in refl))
        (unfold Saga.fail in tt) (unfold Saga.fail in refl)
        (unfold Saga.fail saga_to_domain in (c.tied s.id s w.stored).bounded)
        (unfold Saga.fail in left)

  -- A handler that only cancels.
  cancelled_by :
      (order_id : String) (step : SagaStep) (r r' : Result OrderError (Unit {0}) × Db T)
      → r ≡ r'
      → Handled order_id step SagaStep.failed OrderStatus.cancelled r'
      → Handled order_id step SagaStep.failed OrderStatus.cancelled r
  cancelled_by order_id step r r' e =
      subst (Handled order_id step SagaStep.failed OrderStatus.cancelled) (sym e)

  pub stock_reserved-Handled :
      (event : StockReservedEvent)
      → Handled event.order_id SagaStep.reserve_stock SagaStep.process_payment OrderStatus.confirmed
          (stock_reserved_body T now event db)
  unfolding Saga.advance_to
  stock_reserved-Handled event = elim (loaded_cases T db event.order_id SagaStep.reserve_stock) [
    | inl none_waits ↦
        ignored _ _ _ _ (stock_reserved_body T now event db) none_waits
          (unfold stock_reserved_body in rw none_waits)
    | inr (s, w, l) ↦
        let (o, f, a) = order_of_Waiting T db event.order_id SagaStep.reserve_stock s c w in
        moved_by event.order_id SagaStep.reserve_stock s
          (Saga.advance_to now (saga_to_domain s) SagaStep.process_payment) OrderStatus.confirmed _
          _ _ _ _ _ w (stock_reserved_effect T now db event s o l w.at_step f a)
          (unfold update_order in refl) (unfold Saga.advance_to saga_to_domain in refl)
          (order_statuses T now db event.order_id s o (confirmed_order T now db event o) w f
            (unfold order_to_domain in refl))
          (unfold Saga.advance_to same_step in refl) (unfold Saga.advance_to same_step in refl)
          (unfold Saga.advance_to saga_to_domain in (c.tied s.id s w.stored).bounded)
          (unfold Saga.advance_to same_step in refl)
  ]

  pub stock_reservation_failed-Handled :
      (event : StockReservationFailedEvent)
      → Handled event.order_id SagaStep.reserve_stock SagaStep.failed OrderStatus.cancelled
          (stock_reservation_failed_body T now event db)
  unfolding stock_reservation_failed_body
  stock_reservation_failed-Handled event =
      elim (loaded_cases T db event.order_id SagaStep.reserve_stock) [
        | inl none_waits ↦ ignored _ _ _ _ _ none_waits (rw none_waits)
        | inr (s, w, l) ↦
            let (o, f, a) = order_of_Waiting T db event.order_id SagaStep.reserve_stock s c w in
            cancelled_by _ _ (stock_reservation_failed_body T now event db) _ (rw l) (
              cancellation-Handled event.order_id event.reason SagaStep.reserve_stock s o w f
                (inl a) (unfold same_step in refl))
      ]

  pub stock_released-Handled :
      (event : BaseCommand)
      → Handled event.order_id SagaStep.release_stock SagaStep.failed OrderStatus.cancelled
          (stock_released_body T now event db)
  unfolding stock_released_body
  stock_released-Handled event = elim (loaded_cases T db event.order_id SagaStep.release_stock) [
    | inl none_waits ↦ ignored _ _ _ _ _ none_waits (rw none_waits)
    | inr (s, w, l) ↦
        let (o, f, a) = order_of_Waiting T db event.order_id SagaStep.release_stock s c w in
        cancelled_by _ _ (stock_released_body T now event db) _ (rw l) (
          cancellation-Handled event.order_id (release_reason (saga_to_domain s))
            SagaStep.release_stock s o w f (inr a) (unfold same_step in refl))
  ]

  pub payment_processed-Handled :
      (event : PaymentProcessedEvent)
      → Handled event.order_id SagaStep.process_payment SagaStep.completed OrderStatus.confirmed
          (payment_processed_body T now event db)
  unfolding Saga.advance_to
  payment_processed-Handled event =
      elim (loaded_cases T db event.order_id SagaStep.process_payment) [
        | inl none_waits ↦
            ignored _ _ _ _ (payment_processed_body T now event db) none_waits
              (unfold payment_processed_body in rw none_waits)
        | inr (s, w, l) ↦
            let (o, f, a) = order_of_Waiting T db event.order_id SagaStep.process_payment s c w in
            moved_by event.order_id SagaStep.process_payment s
              (Saga.advance_to now (saga_to_domain s) SagaStep.completed) OrderStatus.confirmed _ _
              _ _ _ _ w (payment_processed_effect T now db event s o l w.at_step f) refl
              (unfold Saga.advance_to saga_to_domain in refl)
              (kept_statuses T now db event.order_id s o w f a)
              (unfold Saga.advance_to same_step in refl) (unfold Saga.advance_to same_step in refl)
              (unfold Saga.advance_to saga_to_domain in (c.tied s.id s w.stored).bounded)
              (unfold Saga.advance_to same_step in refl)
      ]

  pub payment_failed-Handled :
      (event : PaymentFailedEvent)
      → Handled event.order_id SagaStep.process_payment SagaStep.release_stock OrderStatus.confirmed
          (payment_failed_body T now event db)
  unfolding Saga.start_compensation
  payment_failed-Handled event = elim (loaded_cases T db event.order_id SagaStep.process_payment) [
    | inl none_waits ↦
        ignored _ _ _ _ (payment_failed_body T now event db) none_waits
          (unfold payment_failed_body in rw none_waits)
    | inr (s, w, l) ↦
        let (o, f, a) = order_of_Waiting T db event.order_id SagaStep.process_payment s c w in
        moved_by event.order_id SagaStep.process_payment s
          (Saga.start_compensation now (saga_to_domain s) event.reason) OrderStatus.confirmed _ _ _
          _ _ _ w (payment_failed_effect T now db event s o l f) refl
          (unfold Saga.start_compensation saga_to_domain in refl)
          (kept_statuses T now db event.order_id s o w f a) (unfold Saga.start_compensation in refl)
          (unfold Saga.start_compensation in refl)
          (unfold Saga.start_compensation saga_to_domain in (c.tied s.id s w.stored).bounded)
          (unfold Saga.start_compensation same_step in refl)
  ]
