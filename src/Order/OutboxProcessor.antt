-- ===== src/Order/OutboxProcessor.antt =====
-- order-service: outbox-processor.service.ts with the methods of typeorm-outbox.repository.ts that
-- it calls. It is written apart from AbstractOutboxProcessorService.
pub mod Equivalence
mod Examples
use shop_microservices.Prelude.{
  ℕ, ◌+◌, String, Bool, false, Option, none, some, List, [], ◌∷◌, ◌++◌, map, leb, if◌then◌else◌,
}
use shop_microservices.Shared.{OutboxStatus, KafkaTopic}
use shop_microservices.Shared.Messages.{Payload, correlation_id_of}
use shop_microservices.Outbox.{OutboxEntity, OutboxRepository}
use shop_microservices.Outbox.Processor.{
  Published, Processor, Ending, reached, stays, is_due, delay_ms,
}

-- What the repository hands to the processor of a row.
pub record OutboxRecord : Type 0 where
  pub id : String
  pub topic : KafkaTopic
  pub message_key : String
  pub payload : Payload
  pub retry_count : ℕ

unfoldable pub to_record : OutboxEntity → OutboxRecord
to_record o = record {
  id = o.id;
  topic = o.topic;
  message_key = o.message_key;
  payload = o.payload;
  retry_count = o.retry_count;
}

-- `none` when the broker accepts the message, or else the message of the error thrown.
abbrev pub RecordDelivery : Type 0
RecordDelivery = OutboxRecord → Option String

-- What `kafkaProducer.publish` is called with.
unfoldable pub message_of : OutboxRecord → Published
message_of r = record {
  topic = r.topic;
  payload = r.payload;
  correlation_id = correlation_id_of r.payload;
  message_id = r.id;
}

module _ (R : OutboxRepository) where
  unfoldable pub find_pending_with_lock : ℕ → ℕ → R.Table → List OutboxRecord
  unfolding to_record is_due
  find_pending_with_lock now limit t =
      map to_record (R.find_many t (is_due now) (λ o. o.scheduled_at) limit)

  unfoldable pub mark_published : ℕ → String → R.Table → R.Table
  mark_published now id t =
      R.update t id λ o. record o { status = OutboxStatus.published; published_at = some now }

  unfoldable pub schedule_retry : String → ℕ → String → ℕ → R.Table → R.Table
  schedule_retry id retry_count error scheduled_at t = R.update t id λ o. record o {
    status = OutboxStatus.pending;
    retry_count = retry_count;
    last_error = some error;
    scheduled_at = scheduled_at;
  }

  unfoldable pub permanently_fail : String → ℕ → String → R.Table → R.Table
  permanently_fail id retry_count error t = R.update t id λ o. record o {
    status = OutboxStatus.failed;
    retry_count = retry_count;
    last_error = some error;
  }

module _ (R : OutboxRepository) (max_retries now : ℕ) where
  -- The handler of a failed publish; `retry_count` is the count after it.
  unfoldable pub on_failure : OutboxRecord → ℕ → String → R.Table → R.Table
  unfolding schedule_retry permanently_fail delay_ms
  on_failure r retry_count error t =
      if leb max_retries retry_count
      then permanently_fail R r.id retry_count error t
      else schedule_retry R r.id retry_count error (now + delay_ms retry_count) t

  -- One turn of the loop.
  unfoldable pub process_record :
      RecordDelivery → OutboxRecord → R.Table × List Published → R.Table × List Published
  unfolding message_of mark_published on_failure
  process_record deliver r s = elim (deliver r) [
    | none ↦ (mark_published R now r.id s.0, s.1 ++ (message_of r ∷ []))
    | some error ↦ (on_failure r (r.retry_count + 1) error s.0, s.1)
  ]

  unfoldable pub process_each :
      RecordDelivery → List OutboxRecord → R.Table × List Published → R.Table × List Published
  unfolding process_record
  process_each deliver [] s = s
  process_each deliver (r ∷ rest) s = process_each deliver rest (process_record deliver r s)

  -- A publish is not undone when the transaction around it is.
  pub process_pending : RecordDelivery → Ending → Processor R → Processor R
  unfolding find_pending_with_lock process_each
  process_pending deliver ending p =
      if p.is_processing
      then p
      else let done =
          process_each deliver (reached ending (find_pending_with_lock R now 10 p.table))
            (p.table, p.sent) in
        record { is_processing = false; table = stays ending done.0 p.table; sent = done.1 }
