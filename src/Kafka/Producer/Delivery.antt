-- ===== src/Kafka/Producer/Delivery.antt =====
-- From the producer to the consumer: what a handler gets of a message that was published.
use shop_microservices.Prelude.{
  suc, ℕ, String, ◌==◌, ◌≡◌, refl, Bool, false, Option, none, some, List, [], ◌∷◌, ◌++◌,
}
use shop_microservices.Exec.{ok}
use shop_microservices.Kafka.Dispatch.{IsAtomic, Settled, dispatch-Settled}
use shop_microservices.Kafka.{KafkaEnvelope, SubscribeOptions, World, dispatch, find_subscription}
use shop_microservices.Kafka.Producer.{
  or_else, Meta, Moment, ProducerRecord, envelope_of, record_of, publish,
}

-- The envelope that a handler gets of a message.
abbrev pub received : {P : Type 0} → String → Moment → P → Meta → KafkaEnvelope P
received source moment payload meta = record {
  message_id = or_else meta.message_id moment.random_uuid;
  correlation_id = or_else meta.correlation_id "";
  traceparent = or_else moment.traceparent "";
  tracestate = or_else moment.tracestate "";
  timestamp = moment.now;
  source = source;
  retry_count = 0;
  payload = payload;
}

-- What is relied on of `JSON.stringify` and `JSON.parse` at an envelope: it is read back as it was
-- written, and its text is not empty.
pub record IsReadBack {P : Type 0} (stringify : KafkaEnvelope P → String)
    (parse : String → Option (KafkaEnvelope P)) (e : KafkaEnvelope P) : Type 0 where
  pub parse-stringify : parse (stringify e) ≡ some e
  pub stringify-ne-empty : (stringify e == "") ≡ false

module _ {P S : Type 0} (stringify : KafkaEnvelope P → String)
    (parse : String → Option (KafkaEnvelope P)) where
  -- `publish` to a broker that accepts the message sends one, to the given topic. Whenever it is
  -- dispatched, to a subscription of the topic whose handler is to be tried at least once and rolls
  -- back when it throws, the handler is tried until it succeeds, and a letter is sent if every
  -- attempt fails; what it gets, and what the letter would hold, is the very payload that was
  -- published, the message id that was given or else the fresh one, and the correlation id that was
  -- given or else none. The headers carry the same two ids.
  pub dispatch-publish :
      (source topic : String) (moment : Moment) (payload : P) (meta : Meta)
      (sent : List ProducerRecord) (now : ℕ) (dlq_fails : Bool)
      (subscriptions : List (SubscribeOptions P S)) (sub : SubscribeOptions P S) (w : World P S)
      (k : ℕ)
      → IsReadBack stringify parse (received source moment payload meta)
      → IsAtomic sub.handler
      → find_subscription P now dlq_fails topic subscriptions ≡ some sub
      → elim sub.max_retries [ none ↦ 3 | some n ↦ n ] ≡ suc k
      → (message : ProducerRecord) × (publish stringify source moment none topic payload meta sent
          ≡ (ok tt, sent ++ (message ∷ [])))
        × (message.topic ≡ topic)
        × (message.x_message_id ≡ or_else meta.message_id moment.random_uuid)
        × (message.x_correlation_id ≡ or_else meta.correlation_id "")
        × Settled now dlq_fails sub
            (received source moment payload meta)
            w
            (suc k)
            1
            (suc k)
            (dispatch P now dlq_fails parse subscriptions message.topic (some message.value) w)
  unfolding publish envelope_of record_of
  dispatch-publish source topic moment payload meta sent now dlq_fails subscriptions sub w k json
        atomic found tries =
      (
        record_of stringify topic (received source moment payload meta),
        refl,
        refl,
        refl,
        refl,
        dispatch-Settled now dlq_fails parse subscriptions topic
            (stringify (received source moment payload meta)) w sub
            (received source moment payload meta) k atomic json.stringify-ne-empty
            json.parse-stringify found tries,
      )
