-- ===== src/Idempotency.antt =====
-- idempotency.entity.ts and idempotency.service.ts, which product-service and payment-service share:
-- the reply of each command that was answered, under the command's id.
use shop_microservices.Prelude.{ℕ, String, Option}
use shop_microservices.Shared.{KafkaTopic}
use shop_microservices.Shared.Messages.{Payload}
use shop_microservices.Repository.{Repository}

pub record IdempotencyKeyEntity : Type 0 where
  pub key : String
  pub reply_topic : KafkaTopic
  pub reply_payload : Payload
  pub processed_at : ℕ

abbrev pub idempotency_key : IdempotencyKeyEntity → String
idempotency_key r = r.key

abbrev pub IdempotencyRepository : Type 1
IdempotencyRepository = Repository IdempotencyKeyEntity idempotency_key

abbrev pub stored_result : ℕ → String → KafkaTopic → Payload → IdempotencyKeyEntity
stored_result now key topic payload = record {
  key = key;
  reply_topic = topic;
  reply_payload = payload;
  processed_at = now;
}

-- `idempotencyService.find`
abbrev pub find : (R : IdempotencyRepository) → R.Table → String → Option IdempotencyKeyEntity
find R t key = R.find_one t key

-- `idempotencyService.save`
abbrev pub save :
    (R : IdempotencyRepository) → ℕ → String → KafkaTopic → Payload → R.Table → R.Table
save R now key topic payload t = R.save t (stored_result now key topic payload)
