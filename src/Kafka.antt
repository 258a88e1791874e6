-- ===== src/Kafka.antt =====
-- packages/kafka/src/kafka.consumer.service.ts and kafka.envelope.ts: what the consumer does with one
-- message. Spans and logging are left out; parsing JSON is a parameter, as is whether the broker
-- accepts the message to the dead-letter topic.
pub mod Dispatch
pub mod Producer
pub mod Subscriptions
mod Examples
use Prim.Native.String.{◌++◌ as ◌++ₛ◌}
use shop_microservices.Prelude.{
  ℕ, zero, suc, ◌+◌, String, ◌==◌, Bool, true, false, Option, none, some, List, [], ◌∷◌, ◌++◌,
  if◌then◌else◌,
}
use shop_microservices.Exec.{Result, ok, err}

unfoldable pub is_zero : ℕ → Bool
is_zero zero = true
is_zero (suc n) = false

module _ (P : Type 0) where
  pub record KafkaEnvelope : Type 0 where
    pub message_id : String
    pub correlation_id : String
    pub traceparent : String
    pub tracestate : String
    pub timestamp : ℕ
    pub source : String
    pub retry_count : ℕ
    pub payload : P

  pub record KafkaDlqEnvelope : Type 0 where
    pub original_envelope : KafkaEnvelope
    pub failed_topic : String
    pub failed_at : ℕ
    pub error : String
    pub total_attempts : ℕ

  -- The handler's n-th attempt, on the state of the service: it may read the time.
  abbrev pub Handler : Type 0 → Type 0
  Handler S = ℕ → KafkaEnvelope → S → Result String (Unit {0}) × S

  pub record SubscribeOptions (S : Type 0) : Type 0 where
    pub topic : String
    pub handler : Handler S
    pub max_retries : Option ℕ

  -- What the service and the dead-letter topics hold.
  pub record World (S : Type 0) : Type 0 where
    pub state : S
    pub dead_letters : List (String × KafkaDlqEnvelope)

  module _ {S : Type 0} (now : ℕ) (dlq_fails : Bool) where
    -- `sendToDlq`
    unfoldable pub send_to_dlq : String → KafkaEnvelope → String → ℕ → World S → World S
    send_to_dlq topic envelope error total_attempts w =
        let letter : KafkaDlqEnvelope = record {
          original_envelope = envelope;
          failed_topic = topic;
          failed_at = now;
          error = error;
          total_attempts = total_attempts;
        } in
        if dlq_fails
        then w
        else record w { dead_letters = w.dead_letters ++ ((topic ++ₛ ".dlq", letter) ∷ []) }

    -- What follows the n-th attempt, when `rest` is the loop from the next one on and `is_last` says
    -- that this was attempt number `max_retries`.
    unfoldable pub after_attempt :
        String
        → KafkaEnvelope
        → ℕ
        → Bool
        → (World S → World S)
        → World S
        → Result String (Unit {0}) × S
        → World S
    unfolding send_to_dlq
    after_attempt topic envelope max_retries is_last rest w (ok _, s) = record w { state = s }
    after_attempt topic envelope max_retries is_last rest w (err e, s) =
        let failed = record w { state = s } in
        let tried_again = rest failed in
        if is_last then send_to_dlq topic envelope e max_retries failed else tried_again

    -- The loop over the attempts: `left` are to come, the first of them is number `attempt`.
    unfoldable pub attempt_each : SubscribeOptions S → KafkaEnvelope → ℕ → ℕ → ℕ → World S → World S
    unfolding after_attempt is_zero
    attempt_each sub envelope max_retries attempt zero w = w
    attempt_each sub envelope max_retries attempt (suc left) w =
        after_attempt sub.topic envelope max_retries (is_zero left)
          (attempt_each sub envelope max_retries (suc attempt) left) w
          (sub.handler attempt envelope w.state)

    -- `sub.maxRetries ?? 3`
    unfoldable pub attempts_of : SubscribeOptions S → ℕ
    attempts_of sub = elim sub.max_retries [ none ↦ 3 | some n ↦ n ]

    -- `this.subscriptions.find((s) => s.topic === topic)`
    unfoldable pub find_subscription :
        String → List (SubscribeOptions S) → Option (SubscribeOptions S)
    find_subscription topic [] = none
    find_subscription topic (sub ∷ subs) =
        if sub.topic == topic then some sub else find_subscription topic subs

    unfoldable pub route : Option (SubscribeOptions S) → KafkaEnvelope → World S → World S
    unfolding attempt_each attempts_of
    route none envelope w = w
    route (some sub) envelope w = attempt_each sub envelope (attempts_of sub) 1 (attempts_of sub) w

    -- `dispatch`: `value` is the text of the message, if it has one.
    unfoldable pub dispatch :
        (String → Option KafkaEnvelope)
        → List (SubscribeOptions S)
        → String
        → Option String
        → World S
        → World S
    unfolding route find_subscription
    dispatch parse subscriptions topic value w = elim value [
      | none ↦ w
      | some raw ↦ if raw == "" then w else elim (parse raw) [
        | none ↦ w
        | some envelope ↦ route (find_subscription topic subscriptions) envelope w
      ]
    ]
