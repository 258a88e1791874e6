-- ===== src/Checkout/Steps.antt =====
-- What each step of a checkout puts into an outbox.
use shop_microservices.Prelude.{ℕ, String, ◌≡◌, ◌∙◌, ap, none, some, inl, eq_refl}
use shop_microservices.Shared.{KafkaTopic}
use shop_microservices.Shared.Messages.{Payload, StockReservedEvent, StockReservationFailedEvent}
use shop_microservices.Exec.{DataSource}
use shop_microservices.Outbox
use shop_microservices.Outbox.{OutboxRepository}
use shop_microservices.Order.Status.{OrderStatus, SagaStep, OrderError, same_step_refl, is_running}
use shop_microservices.Order.Saga
use shop_microservices.Order.Persistence.{
  OrderOrmEntity, SagaStateOrmEntity, saga_to_domain, order_to_domain,
}
use shop_microservices.Order.Persistence.Repositories.{
  Tables, Db, find_by_order_id_with_lock, write, update_saga, update_order,
}
use shop_microservices.Order.Orchestrator.{
  stock_reserved, stock_reservation_failed, load_saga_for_step, on_reply, process_payment_command,
  reply_body, order_cancelled_event, stock_reservation_failed_body, perform_cancellation,
}
use shop_microservices.Order.Orchestrator.Consistency.{IsConsistent}
use shop_microservices.Order.Orchestrator.Loading.{Waiting}
use shop_microservices.Order.Orchestrator.Lines.{lines_at, lines_at-update_order}
use shop_microservices.Order.Orchestrator.Effects.{
  confirmed_order, stock_reserved_effect, cancellation_effect,
}
use shop_microservices.Order.Orchestrator.Safety.{on_reply-body}
use shop_microservices.Order.Orchestrator.Progress.Rows.{saga_of-stored}
use shop_microservices.Checkout.{sent}

-- A row that was written is the one that was sent.
pub sent-write :
    (R : OutboxRepository) (now : ℕ) (aggregate key : String) (topic : KafkaTopic)
    (payload : Payload) (t : R.Table)
    → sent R t (Outbox.write R now aggregate topic key payload t) ≡ some payload
unfolding Outbox.write Outbox.outbox_row
sent-write R now aggregate key topic payload t = rw (
  R.find_one-save t (Outbox.outbox_row (R.generate t) now aggregate topic key payload)
      (R.generate t),
  eq_refl (R.generate t),
)

-- A step that leaves the outbox as it is sends nothing.
pub sent-same : (R : OutboxRepository) (t : R.Table) → sent R t t ≡ none
sent-same R t = rw (R.find_one-generate t)

module _ (T : Tables) (db : Db T) (c : IsConsistent T db) where
  pub Waiting-load :
      (order_id : String) (step : SagaStep) (s : SagaStateOrmEntity)
      → Waiting T db order_id step s
      → load_saga_for_step T order_id step db ≡ some (saga_to_domain s)
  unfolding load_saga_for_step find_by_order_id_with_lock Saga.can_handle is_running saga_to_domain
  Waiting-load order_id step s w = rw (
    load_saga_for_step,
    find_by_order_id_with_lock,
    saga_of-stored T db order_id s c w.stored w.of_order,
    w.at_step,
    w.is_live,
    same_step_refl step,
  )

module _ (T : Tables) (D : DataSource OrderError (Db T)) (now : ℕ) (db : Db T)
    (c : IsConsistent T db) (s : SagaStateOrmEntity) (o : OrderOrmEntity)
    (pending : o.status ≡ OrderStatus.pending) where
  pub sent-stock_reserved :
      (e : StockReservedEvent)
      → Waiting T db e.order_id SagaStep.reserve_stock s
      → T.orders.find_one db.orders e.order_id ≡ some o
      → sent T.outbox db.outbox (on_reply T D now (stock_reserved e) db).1.outbox
        ≡ some (process_payment_command e.order_id (saga_to_domain s) (order_to_domain o) e.total)
  unfolding reply_body write update_saga update_order
  sent-stock_reserved e w found =
      ap (λ r. sent T.outbox db.outbox r.1.outbox)
        (on_reply-body T D now db c (stock_reserved e)
          ∙ stock_reserved_effect T now db e s o
              (Waiting-load T db c e.order_id SagaStep.reserve_stock s w) w.at_step found pending)
      ∙ sent-write T.outbox now e.order_id e.order_id KafkaTopic.process_payment _ db.outbox

  pub sent-stock_reservation_failed :
      (e : StockReservationFailedEvent)
      → Waiting T db e.order_id SagaStep.reserve_stock s
      → T.orders.find_one db.orders e.order_id ≡ some o
      → sent T.outbox db.outbox (on_reply T D now (stock_reservation_failed e) db).1.outbox
        ≡ some (order_cancelled_event now (saga_to_domain s) (order_to_domain o) e.reason)
  unfolding reply_body write update_saga update_order stock_reservation_failed_body
  sent-stock_reservation_failed e w found =
      let cancels : stock_reservation_failed_body T now e db
          ≡ perform_cancellation T now (saga_to_domain s) e.order_id e.reason db =
        rw (Waiting-load T db c e.order_id SagaStep.reserve_stock s w) in
      ap (λ r. sent T.outbox db.outbox r.1.outbox)
        (on_reply-body T D now db c (stock_reservation_failed e)
          ∙ cancels
          ∙ cancellation_effect T now db e.order_id e.reason s o found (inl pending))
      ∙ sent-write T.outbox now e.order_id e.order_id KafkaTopic.order_cancelled _ db.outbox

  -- A confirmed order holds what it held.
  pub stock_reserved-lines :
      (e : StockReservedEvent) (k : String)
      → Waiting T db e.order_id SagaStep.reserve_stock s
      → T.orders.find_one db.orders e.order_id ≡ some o
      → lines_at T (on_reply T D now (stock_reserved e) db).1.orders k ≡ lines_at T db.orders k
  unfolding reply_body write update_saga
  stock_reserved-lines e k w found =
      ap (λ r. lines_at T r.1.orders k)
        (on_reply-body T D now db c (stock_reserved e)
          ∙ stock_reserved_effect T now db e s o
              (Waiting-load T db c e.order_id SagaStep.reserve_stock s w) w.at_step found pending)
      ∙ lines_at-update_order T now (confirmed_order T now db e o) db k
