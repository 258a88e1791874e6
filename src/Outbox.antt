-- ===== src/Outbox.antt =====
-- The outbox table of a service and the services that write to it: outbox.entity.ts and
-- outbox.service.ts of product-service and payment-service, auth-outbox.entity.ts and
-- auth-outbox.service.ts of auth-service, outbox.orm-entity.ts of order-service.
pub mod Processor
mod Examples
use shop_microservices.Prelude.{ℕ, String, Option, none}
use shop_microservices.Shared.{OutboxStatus, KafkaTopic}
use shop_microservices.Shared.Messages.{Payload}
use shop_microservices.Repository.{Repository}

pub record OutboxEntity : Type 0 where
  pub id : String
  pub aggregate_id : String
  pub topic : KafkaTopic
  pub message_key : String
  pub payload : Payload
  pub status : OutboxStatus
  pub retry_count : ℕ
  pub last_error : Option String
  pub scheduled_at : ℕ
  pub published_at : Option ℕ
  pub created_at : ℕ

abbrev pub outbox_key : OutboxEntity → String
outbox_key r = r.id

abbrev pub OutboxRepository : Type 1
OutboxRepository = Repository OutboxEntity outbox_key

-- `repo.create({ aggregateId, topic, messageKey, payload })` under the column defaults.
unfoldable pub outbox_row : String → ℕ → String → KafkaTopic → String → Payload → OutboxEntity
outbox_row id now aggregate_id topic message_key payload = record {
  id = id;
  aggregate_id = aggregate_id;
  topic = topic;
  message_key = message_key;
  payload = payload;
  status = OutboxStatus.pending;
  retry_count = 0;
  last_error = none;
  scheduled_at = now;
  published_at = none;
  created_at = now;
}

-- `OutboxService.write`
unfoldable pub write :
    (R : OutboxRepository) → ℕ → String → KafkaTopic → String → Payload → R.Table → R.Table
unfolding outbox_row
write R now aggregate_id topic key payload t =
    R.save t (outbox_row (R.generate t) now aggregate_id topic key payload)
