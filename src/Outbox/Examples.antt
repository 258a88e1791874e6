-- ===== src/Outbox/Examples.antt =====
-- The theorems about the outbox on one message whose first delivery fails.
use shop_microservices.Prelude.{
  length, false, ◌≤◌, ◌≡◌, refl, List, [], ◌∷◌, ◌++◌, some, none, true, arith,
}
use shop_microservices.Repository.Memory.{memory}
use shop_microservices.Repository.Memory.Rows.{find_one}
use shop_microservices.Shared.{KafkaTopic, OutboxStatus}
use shop_microservices.Shared.Messages.{Payload}
use shop_microservices.Outbox.{OutboxEntity, outbox_key, OutboxRepository, outbox_row}
use shop_microservices.Outbox.Processor.{
  Processor, Delivery, process_pending, selected, committed, rolled_back,
}
use shop_microservices.Outbox.Processor.Batch.{in_batch}
use shop_microservices.Outbox.Processor.Tick.{accepted_messages, after_delivery, tick_effect}
use shop_microservices.Outbox.Processor.Accounting.{
  AllAccounted, Event, history, refusals_after, history-AllAccounted,
}

abbrev table : OutboxRepository
table = memory OutboxEntity outbox_key

abbrev empty : Processor table
empty = record { is_processing = false; table = []; sent = [] }

abbrev message : Payload
message = Payload.user_registered (record { user_id = "u1"; email = "u1@shop.test" })

abbrev accepted : Delivery
accepted r = none

abbrev down : Delivery
down r = some "broker down"

abbrev events : List Event
events =
    Event.written 5 "u1" KafkaTopic.user_registered "u1" message
    ∷ Event.tick 6 down committed
    ∷ Event.tick 2006 accepted (rolled_back 1)
    ∷ Event.tick 2007 accepted committed
    ∷ []

empty-AllAccounted : AllAccounted table 5 (λ k. 0) empty
unfolding find_one
empty-AllAccounted = record { rows = λ k r h. absurd (cc h); absent = λ k gone. refl }

history-AllAccounted_example :
    AllAccounted table 5
      (refusals_after table 5 empty (λ k. 0) events)
      (history table 5 empty events)
history-AllAccounted_example =
    history-AllAccounted table 5 empty (λ k. 0) events (omega arith) empty-AllAccounted

abbrev row : OutboxEntity
row = outbox_row "m1" 5 "u1" KafkaTopic.user_registered "u1" message

abbrev one_row : Processor table
one_row = record { is_processing = false; table = row ∷ []; sent = [] }

tick_effect_example :
    let q = process_pending table 5 6 down committed one_row in
    (length (selected table 6 one_row) ≤ 10)
    × (row.status ≡ OutboxStatus.pending
        → row.scheduled_at ≤ 6
        → in_batch table 6 one_row "m1" ≡ false
        → length (selected table 6 one_row) ≡ 10)
    × (in_batch table 6 one_row "m1" ≡ false → table.find_one q.table "m1" ≡ some row)
    × (in_batch table 6 one_row "m1" ≡ true
        → (row.status ≡ OutboxStatus.pending)
          × (row.scheduled_at ≤ 6)
          × (table.find_one q.table "m1" ≡ some (after_delivery 5 6 (down row) row)))
    × (q.sent ≡ [] ++ accepted_messages down (selected table 6 one_row))
unfolding find_one outbox_row
tick_effect_example = tick_effect table 5 6 down one_row "m1" row refl refl
