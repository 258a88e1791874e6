-- ===== src/Product/SagaController.antt =====
-- products-saga.controller.ts.
pub mod Safety
pub mod Replies
use shop_microservices.Prelude.{ℕ, ◌+◌, ◌*◌, String, Option, none, some, List, [], ◌∷◌}
use shop_microservices.Shared.{KafkaTopic}
use shop_microservices.Shared.Messages.{
  BaseCommand, ReserveStockCommand, ReleaseStockCommand, StockReservedEvent,
  StockReservationFailedEvent, Payload,
}
use shop_microservices.Exec.{DataSourceBeside, gets, pure, try_catch, modify, ◌>>=◌, ◌>>◌}
use shop_microservices.Outbox
use shop_microservices.Idempotency
use shop_microservices.Idempotency.{IdempotencyKeyEntity}
use shop_microservices.Product.Entity.{
  ReservedItemResult, ProductError, error_message, Tables, Db, Cache,
}
use shop_microservices.Product.Service.{Action, reserve_stock, release_stock}

-- `items.reduce((sum, i) => sum + i.unitPrice * i.quantity, sum)`
unfoldable pub total_from : ℕ → List ReservedItemResult → ℕ
total_from sum [] = sum
total_from sum (i ∷ items) = total_from (sum + i.unit_price * i.quantity) items

unfoldable pub reserved_reply : ReserveStockCommand → List ReservedItemResult → StockReservedEvent
unfolding total_from
reserved_reply command items = record {
  base = command.base;
  items = items;
  total = total_from 0 items;
}

unfoldable pub failed_reply : ReserveStockCommand → ProductError → StockReservationFailedEvent
unfolding error_message
failed_reply command e = record { base = command.base; reason = error_message e }

module _ (T : Tables) (C : Cache) (now : ℕ) where
  unfoldable pub find : Db T → String → Option IdempotencyKeyEntity
  find db key = Idempotency.find T.keys db.keys key

  unfoldable pub save : String → KafkaTopic → Payload → Db T → Db T
  save key topic payload db = record db {
    keys = Idempotency.save T.keys now key topic payload db.keys;
  }

  -- `outboxService.write(manager, orderId, topic, orderId, payload)`
  unfoldable pub write : String → KafkaTopic → Payload → Db T → Db T
  unfolding Outbox.write
  write order_id topic payload db = record db {
    outbox = Outbox.write T.outbox now order_id topic order_id payload db.outbox;
  }

  -- The stored reply is queued again.
  unfoldable pub requeue : BaseCommand → IdempotencyKeyEntity → Action T C (Unit {0})
  unfolding write
  requeue command existing =
      modify λ s. (write command.order_id existing.reply_topic existing.reply_payload s.0, s.1)

  -- The reply is saved under the command's id and queued.
  unfoldable pub answer : BaseCommand → KafkaTopic → Payload → Action T C (Unit {0})
  unfolding save write
  answer command topic payload =
      modify
        λ s. (write command.order_id topic payload (save command.command_id topic payload s.0), s.1)

  unfoldable pub reserve_and_answer : ReserveStockCommand → Action T C (Unit {0})
  unfolding reserve_stock answer reserved_reply failed_reply
  reserve_and_answer command =
      try_catch
        (reserve_stock T C now command.items >>= λ items.
          answer command.base KafkaTopic.stock_reserved
            (Payload.stock_reserved (reserved_reply command items)))
        (λ e.
          answer command.base KafkaTopic.stock_reservation_failed
            (Payload.stock_reservation_failed (failed_reply command e)))

  unfoldable pub once :
      BaseCommand → Action T C (Unit {0}) → Option IdempotencyKeyEntity → Action T C (Unit {0})
  unfolding requeue
  once command body none = body
  once command body (some existing) = requeue command existing

  -- `handleReserveStock`
  unfoldable pub handle_reserve_stock :
      DataSourceBeside ProductError (Db T) C.Store → ReserveStockCommand → Action T C (Unit {0})
  unfolding once find reserve_and_answer
  handle_reserve_stock D command =
      D.transaction (Unit {0})
        (gets (λ s. find s.0 command.command_id) >>= once command.base (reserve_and_answer command))

  unfoldable pub release_and_answer : ReleaseStockCommand → Action T C (Unit {0})
  unfolding release_stock answer
  release_and_answer command =
      release_stock T C now command.items
      >> answer command.base KafkaTopic.stock_released (Payload.stock_released command.base)

  -- `handleReleaseStock`
  unfoldable pub handle_release_stock :
      DataSourceBeside ProductError (Db T) C.Store → ReleaseStockCommand → Action T C (Unit {0})
  unfolding once find release_and_answer
  handle_release_stock D command =
      D.transaction (Unit {0})
        (gets (λ s. find s.0 command.command_id) >>= once command.base (release_and_answer command))
