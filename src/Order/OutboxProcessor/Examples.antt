-- ===== src/Order/OutboxProcessor/Examples.antt =====
-- A tick of order-service's processor that gives up on a message.
use shop_microservices.Prelude.{◌≡◌, refl, String, [], ◌∷◌, some, false}
use shop_microservices.Repository.Memory.{memory}
use shop_microservices.Repository.Memory.Rows.{find_one, find_many, update}
use shop_microservices.Shared.{KafkaTopic, OutboxStatus}
use shop_microservices.Shared.Messages.{Payload}
use shop_microservices.Outbox.{OutboxEntity, outbox_key, OutboxRepository, outbox_row}
use shop_microservices.Outbox.Processor
use shop_microservices.Outbox.Processor.{Processor, committed}
use shop_microservices.Order.OutboxProcessor.{RecordDelivery, process_pending}
use shop_microservices.Order.OutboxProcessor.Equivalence.{
  on_rows, SameEntry, process_pending-SameOutbox,
}

abbrev table : OutboxRepository
table = memory OutboxEntity outbox_key

abbrev released : Payload
released =
    Payload.stock_released (record { command_id = "s1"; order_id = "o1"; correlation_id = "c1" })

abbrev row : OutboxEntity
unfolding outbox_row
row = record (outbox_row "m1" 5 "o1" KafkaTopic.stock_released "o1" released) { retry_count = 4 }

abbrev one_row : Processor table
one_row = record { is_processing = false; table = row ∷ []; sent = [] }

abbrev down : RecordDelivery
down r = some "broker down"

process_pending-SameOutbox_example :
    let q = process_pending table 5 6 down committed one_row in
    let q' = Processor.process_pending table 5 6 (on_rows down) committed one_row in
    (q.sent ≡ q'.sent)
    × (q.is_processing ≡ q'.is_processing)
    × ((k : String) → SameEntry (table.find_one q.table k) (table.find_one q'.table k))
process_pending-SameOutbox_example = process_pending-SameOutbox table 5 6 down committed one_row

-- The row is failed and keeps its time.
gives_up :
    table.find_one (process_pending table 5 6 down committed one_row).table "m1"
    ≡ some (record row {
      status = OutboxStatus.failed;
      retry_count = 5;
      last_error = some "broker down";
    })
unfolding process_pending find_one find_many update outbox_row
gives_up = refl
