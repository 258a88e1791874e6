-- ===== src/Outbox/Processor.antt =====
-- AbstractOutboxProcessorService of packages/outbox, which product-service, payment-service and
-- auth-service run once a second. A tick takes the time, what Kafka answers to each publish, and how
-- the transaction ends.
pub mod Effect
pub mod Batch
pub mod Tick
pub mod Accounting
use shop_microservices.Prelude.{
  ℕ, ◌+◌, ◌*◌, ◌^◌, min, String, Bool, true, false, ◌&&◌, Option, none, some, List, [], ◌∷◌, ◌++◌,
  take, leb, if◌then◌else◌,
}
use shop_microservices.Shared.{OutboxStatus, KafkaTopic, is_pending}
use shop_microservices.Shared.Messages.{Payload, correlation_id_of}
use shop_microservices.Repository.{Repository, Patch}
use shop_microservices.Outbox.{OutboxEntity, OutboxRepository}

-- What `kafkaProducer.publish` is called with.
pub record Published : Type 0 where
  pub topic : KafkaTopic
  pub payload : Payload
  pub correlation_id : String
  pub message_id : String

-- `none` when the broker accepts the row's message, or else the message of the error thrown.
abbrev pub Delivery : Type 0
Delivery = OutboxEntity → Option String

unfoldable pub message_of : OutboxEntity → Published
message_of record_ = record {
  topic = record_.topic;
  payload = record_.payload;
  correlation_id = correlation_id_of record_.payload;
  message_id = record_.id;
}

-- Exponential back-off capped at 5 minutes.
unfoldable pub delay_ms : ℕ → ℕ
delay_ms retry_count = min (1000 * 2 ^ retry_count) 300000

unfoldable pub is_due : ℕ → OutboxEntity → Bool
unfolding is_pending
is_due now r = is_pending r.status && leb r.scheduled_at now

abbrev pub batch_size : ℕ
batch_size = 10

-- The columns written after a successful publish.
unfoldable pub published_patch : ℕ → Patch OutboxEntity
published_patch now row = record row { status = OutboxStatus.published; published_at = some now }

-- The columns written after a failed one; `retry_count` is the count after it.
unfoldable pub failed_patch : ℕ → ℕ → ℕ → String → Patch OutboxEntity
unfolding delay_ms
failed_patch max_retries now retry_count error row = record row {
  status = if leb max_retries retry_count then OutboxStatus.failed else OutboxStatus.pending;
  retry_count = retry_count;
  last_error = some error;
  scheduled_at = now + delay_ms retry_count;
}

-- What a tick writes to the row of a selected record.
unfoldable pub record_patch : ℕ → ℕ → Delivery → OutboxEntity → Patch OutboxEntity
unfolding published_patch failed_patch
record_patch max_retries now deliver record_ = elim (deliver record_) [
  | none ↦ published_patch now
  | some error ↦ failed_patch max_retries now (record_.retry_count + 1) error
]

-- The message that the record adds to the topic, if Kafka accepts it.
unfoldable pub sent_for : Delivery → OutboxEntity → List Published
unfolding message_of
sent_for deliver record_ = elim (deliver record_) [
  | none ↦ message_of record_ ∷ []
  | some error ↦ []
]

module _ (R : OutboxRepository) (max_retries now : ℕ) (deliver : Delivery) where
  -- The loop over the selected records.
  unfoldable pub process_records :
      List OutboxEntity → R.Table × List Published → R.Table × List Published
  unfolding record_patch sent_for
  process_records [] s = s
  process_records (record_ ∷ rest) (t, sent) = process_records rest (
    R.update t record_.id (record_patch max_retries now deliver record_),
    sent ++ sent_for deliver record_,
  )

-- How the transaction ends: it commits, or the database rolls it back. An update that fails ends the
-- loop, when so many records have been handed to Kafka; a failing commit comes after all of them.
pub data Ending : Type 0 where
  committed : Ending
  rolled_back : ℕ → Ending

-- The records that the loop comes to.
abbrev pub reached : {A : Type 0} → Ending → List A → List A
reached committed records = records
reached (rolled_back n) records = take n records

abbrev pub stays : {A : Type 0} → Ending → A → A → A
stays committed new old = new
stays (rolled_back n) new old = old

-- The service's own flag, its table and all that Kafka has accepted from it.
pub record Processor (R : OutboxRepository) : Type 0 where
  pub is_processing : Bool
  pub table : R.Table
  pub sent : List Published

module _ (R : OutboxRepository) (now : ℕ) where
  -- The query for the pending rows that are due.
  unfoldable pub selected : Processor R → List OutboxEntity
  selected p = R.find_many p.table (is_due now) (λ r. r.scheduled_at) batch_size

module _ (R : OutboxRepository) (max_retries now : ℕ) (deliver : Delivery) (ending : Ending) where
  -- A publish is not undone when the transaction around it is.
  unfoldable pub process_pending : Processor R → Processor R
  unfolding selected process_records
  process_pending p =
      if p.is_processing
      then p
      else let (t, sent) =
          process_records R max_retries now deliver (reached ending (selected R now p))
            (p.table, p.sent) in
        record { is_processing = false; table = stays ending t p.table; sent = sent }
