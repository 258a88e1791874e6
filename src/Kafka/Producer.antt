-- ===== src/Kafka/Producer.antt =====
-- packages/kafka/src/kafka.producer.service.ts. JSON and the trace context are parameters, as is the
-- broker's answer.
pub mod Delivery
use shop_microservices.Prelude.{
  ℕ, String, ◌==◌, Option, none, some, List, [], ◌∷◌, ◌++◌, if◌then◌else◌,
}
use shop_microservices.Exec.{Exec, pure, throw}
use shop_microservices.Kafka.{KafkaEnvelope}

pub record Meta : Type 0 where
  pub correlation_id : Option String
  pub message_id : Option String

-- The time, a fresh uuid, and what `propagation.inject` puts into the carrier.
pub record Moment : Type 0 where
  pub now : ℕ
  pub random_uuid : String
  pub traceparent : Option String
  pub tracestate : Option String

-- One message of `producer.send`, with its topic; the headers carry ids of the envelope.
pub record ProducerRecord : Type 0 where
  pub topic : String
  pub key : String
  pub value : String
  pub x_message_id : String
  pub x_correlation_id : String
  pub traceparent : String
  pub tracestate : String

-- `value ?? other`
abbrev pub or_else : Option String → String → String
or_else none other = other
or_else (some value) other = value

-- `a || b`: the empty text is falsy.
abbrev pub non_empty_or : String → String → String
non_empty_or a b = if a == "" then b else a

module _ {P : Type 0} where
  unfoldable pub envelope_of : String → Moment → P → Meta → KafkaEnvelope P
  envelope_of source moment payload meta = record {
    message_id = or_else meta.message_id moment.random_uuid;
    correlation_id = or_else meta.correlation_id "";
    traceparent = or_else moment.traceparent "";
    tracestate = or_else moment.tracestate "";
    timestamp = moment.now;
    source = source;
    retry_count = 0;
    payload = payload;
  }

  module _ (stringify : KafkaEnvelope P → String) where
    unfoldable pub record_of : String → KafkaEnvelope P → ProducerRecord
    record_of topic envelope = record {
      topic = topic;
      key = non_empty_or envelope.correlation_id envelope.message_id;
      value = stringify envelope;
      x_message_id = envelope.message_id;
      x_correlation_id = envelope.correlation_id;
      traceparent = envelope.traceparent;
      tracestate = envelope.tracestate;
    }

    -- The state is what the broker has accepted; `refusal` is the error of `send`, if it throws.
    unfoldable pub publish :
        String
        → Moment
        → Option String
        → String
        → P
        → Meta
        → Exec String (List ProducerRecord) (Unit {0})
    unfolding envelope_of record_of
    publish source moment refusal topic payload meta sent = elim refusal [
      | some error ↦ throw error sent
      | none ↦ pure tt (sent ++ (record_of topic (envelope_of source moment payload meta) ∷ []))
    ]
