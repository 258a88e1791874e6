-- ===== src/Checkout/Release.antt =====
-- What a failed payment releases.
use Prim.Native.String.{◌++◌ as ◌++ₛ◌}
use shop_microservices.Prelude.{
  ℕ, String, ◌==◌, ◌≡◌, refl, sym, ◌∙◌, ap, some, List, [], ◌∷◌, map, eq_iff, Option-cases, inl,
  inr,
}
use shop_microservices.Shared.{KafkaTopic}
use shop_microservices.Shared.Messages.{Payload, StockItem, ReleaseStockCommand, PaymentFailedEvent}
use shop_microservices.Exec.{DataSource}
use shop_microservices.Outbox.{OutboxEntity, OutboxRepository}
use shop_microservices.Order.Status.{SagaStep, OrderError}
use shop_microservices.Order.Persistence.{
  OrderItemOrmEntity, SagaStateOrmEntity, saga_to_domain, order_to_domain, item_to_domain,
}
use shop_microservices.Order.Persistence.Repositories.{Tables, Db, write, update_saga}
use shop_microservices.Order.Orchestrator.{
  payment_failed, on_reply, reply_body, release_stock_command, release_command_id, command_base,
  stock_item,
}
use shop_microservices.Order.Orchestrator.Consistency.{IsConsistent, status_of_step}
use shop_microservices.Order.Orchestrator.Loading.{Waiting, order_of_Waiting}
use shop_microservices.Order.Orchestrator.Effects.{payment_failed_effect}
use shop_microservices.Order.Orchestrator.Safety.{on_reply-body}
use shop_microservices.Order.Orchestrator.SagaIds.{HasSaga}
use shop_microservices.Order.Orchestrator.Lines.{line_of, lines_at}
use shop_microservices.Order.Orchestrator.Progress.{progress_of, paying}
use shop_microservices.Order.Orchestrator.Progress.Refinement.{progress_of-step}
use shop_microservices.Checkout.{sent}
use shop_microservices.Checkout.Steps.{sent-write, Waiting-load}

stock_items-lines :
    (items : List OrderItemOrmEntity)
    → map stock_item (map item_to_domain items) ≡ map line_of items
unfolding stock_item item_to_domain
stock_items-lines [] = refl
stock_items-lines (i ∷ items) = ap (λ xs. line_of i ∷ xs) (stock_items-lines items)

module _ (T : Tables) (db : Db T) (c : IsConsistent T db) where
  -- The saga of an order that is to be paid waits for the reply about the payment.
  paying-Waiting :
      (order_id : String)
      → progress_of T db order_id ≡ some paying
      → (s : SagaStateOrmEntity) × Waiting T db order_id SagaStep.process_payment s
  paying-Waiting order_id before =
      let (s, found, at) = progress_of-step T db order_id paying before in
      let (same, stored) =
        T.sagas.find_where_sound db.sagas (λ r. r.order_id == order_id) s found in
      (
        s,
        record {
          stored = stored;
          of_order = (eq_iff s.order_id order_id).0 same;
          at_step = at;
          is_live = (c.tied s.id s stored).coherent ∙ ap status_of_step at;
        },
      )

-- A row with this payload is in the outbox.
abbrev pub Queued : (R : OutboxRepository) → R.Table → Payload → Type 0
Queued R t payload = (r : OutboxEntity) × (R.find_one t r.id ≡ some r) × (r.payload ≡ payload)

Queued-sent :
    (R : OutboxRepository) (before after : R.Table) (payload : Payload)
    → sent R before after ≡ some payload
    → Queued R after payload
Queued-sent R before after payload queued =
    elim (Option-cases (R.find_one after (R.generate before))) [
      | inl absent ↦ absurd (cc (rw absent at queued))
      | inr (r, found) ↦ (
        r,
        ap (R.find_one after) (R.key-find_one after (R.generate before) r found) ∙ found,
        cc (rw found at queued),
      )
    ]

-- A release command for exactly these items of the order is in the outbox, under the saga's id.
abbrev pub Releases : (T : Tables) → Db T → String → String → List StockItem → Type 0
Releases T db order_id saga_id items =
    (command : ReleaseStockCommand) × Queued T.outbox db.outbox (Payload.release_stock command)
    × (command.command_id ≡ saga_id ++ₛ "-release")
    × (command.order_id ≡ order_id)
    × (command.items ≡ items)

module _ (T : Tables) (D : DataSource OrderError (Db T)) (now : ℕ) (db : Db T) where
  pub payment_failed-Releases :
      (e : PaymentFailedEvent) (saga_id : String) (items : List StockItem)
      → IsConsistent T db
      → HasSaga T db e.order_id saga_id
      → progress_of T db e.order_id ≡ some paying
      → lines_at T db.orders e.order_id ≡ some items
      → Releases T (on_reply T D now (payment_failed e) db).1 e.order_id saga_id items
  unfolding reply_body write update_saga release_stock_command release_command_id command_base
      order_to_domain saga_to_domain
  payment_failed-Releases e saga_id items c (r, kept, same_order) before ordered =
      let (s, w) = paying-Waiting T db c e.order_id before in
      let (o, found, a) = order_of_Waiting T db e.order_id SagaStep.process_payment s c w in
      (
        record {
          base = command_base (release_command_id (saga_to_domain s)) e.order_id (saga_to_domain s);
          items = map stock_item (map item_to_domain o.items);
        },
        Queued-sent T.outbox db.outbox (on_reply T D now (payment_failed e) db).1.outbox _ (
            ap (λ r. sent T.outbox db.outbox r.1.outbox)
              (on_reply-body T D now db c (payment_failed e)
                ∙ payment_failed_effect T now db e s o
                    (Waiting-load T db c e.order_id SagaStep.process_payment s w) found)
            ∙ sent-write T.outbox now e.order_id e.order_id KafkaTopic.release_stock _ db.outbox),
        ap (λ i. i ++ₛ "-release")
            (c.one_saga s.id saga_id s r w.stored kept (w.of_order ∙ sym same_order)),
        refl,
        stock_items-lines o.items ∙ cc (rw found at ordered),
      )
