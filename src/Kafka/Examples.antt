-- ===== src/Kafka/Examples.antt =====
-- A handler that fails once before it goes through.
use shop_microservices.Kafka.Producer.Delivery.{dispatch-publish}
use shop_microservices.Kafka.Producer.{Meta, Moment, ProducerRecord, publish}
use shop_microservices.Prelude.{
  ◌++◌, ◌≡◌, ℕ, suc, String, refl, [], ◌∷◌, some, none, false, Bool-cases, inl, inr, ltb,
  if◌then◌else◌, ap, sym,
}
use shop_microservices.Exec.{ok, err}
use shop_microservices.Kafka.{
  KafkaEnvelope, Handler, SubscribeOptions, World, dispatch, find_subscription,
}
use shop_microservices.Kafka.Dispatch.{IsAtomic, Settled, dispatch-Settled}

abbrev flaky : Handler String ℕ
flaky n envelope s = if ltb n 2 then (err "timeout", s) else (ok tt, suc s)

flaky-IsAtomic : IsAtomic flaky
flaky-IsAtomic n envelope s s' e fails = elim (Bool-cases (ltb n 2)) [
  | inl early ↦ sym (ap (λ o. o.1) (rw early at fails))
  | inr late ↦ absurd (cc (rw late at fails))
]

abbrev subscription : SubscribeOptions String ℕ
subscription = record { topic = "orders"; handler = flaky; max_retries = none }

abbrev message : KafkaEnvelope String
message = record {
  message_id = "m1";
  correlation_id = "c1";
  traceparent = "";
  tracestate = "";
  timestamp = 3;
  source = "order-service";
  retry_count = 0;
  payload = "hello";
}

abbrev world : World String ℕ
world = record { state = 0; dead_letters = [] }

dispatch-Settled_example :
    Settled 9 false subscription message world 3 1 3
      (dispatch String 9 false (λ raw. some message) (subscription ∷ []) "orders" (some "{}") world)
unfolding find_subscription
dispatch-Settled_example =
    dispatch-Settled 9 false (λ raw. some message) (subscription ∷ []) "orders" "{}" world
      subscription message 2 flaky-IsAtomic refl refl refl refl

abbrev meta : Meta
meta = record { correlation_id = some "c1"; message_id = some "m1" }

abbrev moment : Moment
moment = record { now = 3; random_uuid = "m0"; traceparent = none; tracestate = none }

abbrev sent_message : KafkaEnvelope String
sent_message = record message { retry_count = 0 }

dispatch-publish_example :
    (r : ProducerRecord) × (publish
        (λ (e : KafkaEnvelope String). "{}")
        "order-service"
        moment
        none
        "orders"
        "hello"
        meta
        []
      ≡ (ok tt, [] ++ (r ∷ [])))
    × (r.topic ≡ "orders")
    × (r.x_message_id ≡ "m1")
    × (r.x_correlation_id ≡ "c1")
    × Settled 9 false subscription sent_message world 3 1 3 (
        dispatch String 9 false
          (λ raw. some sent_message)
          (subscription ∷ [])
          r.topic
          (some r.value)
          world)
unfolding find_subscription
dispatch-publish_example =
    dispatch-publish (λ e. "{}") (λ raw. some sent_message) "order-service" "orders" moment "hello"
      meta [] 9 false (subscription ∷ []) subscription world 2
      (record { parse-stringify = refl; stringify-ne-empty = refl }) flaky-IsAtomic refl refl
