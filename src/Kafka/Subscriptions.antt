-- ===== src/Kafka/Subscriptions.antt =====
-- The life of the consumer in kafka.consumer.service.ts: it connects, the modules register their
-- handlers, and once all have done so it subscribes to their topics and starts. The client is that of
-- kafkajs, as far as the service tells it what to do.
use mathlib.Core.List.{append_assoc}
use shop_microservices.Prelude.{
  ℕ, String, ◌==◌, ◌≡◌, refl, sym, ◌∙◌, ap, Bool, true, false, some, List, [], ◌∷◌, ◌++◌, map,
  contains, append-nil, Bool-cases, eq_iff, inl, inr, arith,
}
use shop_microservices.Kafka.{SubscribeOptions, find_subscription}

pub record Client : Type 0 where
  pub is_connected : Bool
  pub topics : List String
  pub has_started : Bool

module _ (P S : Type 0) where
  pub record Consumer : Type 0 where
    pub client : Client
    pub subscriptions : List (SubscribeOptions P S)

  abbrev pub new_consumer : Consumer
  new_consumer = record {
    client = record { is_connected = false; topics = []; has_started = false };
    subscriptions = [];
  }

  unfoldable pub on_module_init : Consumer → Consumer
  on_module_init c = record c { client = record (c.client) { is_connected = true } }

  unfoldable pub subscribe : SubscribeOptions P S → Consumer → Consumer
  subscribe options c = record c { subscriptions = c.subscriptions ++ (options ∷ []) }

  unfoldable pub subscribe_each : List (SubscribeOptions P S) → Client → Client
  subscribe_each [] client = client
  subscribe_each (sub ∷ subs) client =
      subscribe_each subs (record client { topics = client.topics ++ (sub.topic ∷ []) })

  -- `consumer.run`, where something is subscribed
  abbrev pub run_if : List (SubscribeOptions P S) → Client → Client
  run_if [] client = client
  run_if (sub ∷ subs) client = record client { has_started = true }

  unfoldable pub on_application_bootstrap : Consumer → Consumer
  unfolding subscribe_each
  on_application_bootstrap c = record c {
    client = run_if c.subscriptions (subscribe_each c.subscriptions c.client);
  }

  unfoldable pub on_module_destroy : Consumer → Consumer
  on_module_destroy c = record c { client = record (c.client) { is_connected = false } }

  -- The consumer of a service whose modules register these handlers, in this order.
  unfoldable pub subscribe_all : List (SubscribeOptions P S) → Consumer → Consumer
  unfolding subscribe
  subscribe_all [] c = c
  subscribe_all (sub ∷ subs) c = subscribe_all subs (subscribe sub c)

  unfoldable pub started : List (SubscribeOptions P S) → Consumer
  unfolding on_module_init subscribe_all on_application_bootstrap
  started subs = on_application_bootstrap (subscribe_all subs (on_module_init new_consumer))

  abbrev topic_of : SubscribeOptions P S → String
  topic_of sub = sub.topic

  topics-subscribe_each :
      (subs : List (SubscribeOptions P S)) (client : Client)
      → (subscribe_each subs client).topics ≡ client.topics ++ map topic_of subs
  unfolding subscribe_each
  topics-subscribe_each [] client = sym (append-nil client.topics)
  topics-subscribe_each (sub ∷ subs) client =
      topics-subscribe_each subs (record client { topics = client.topics ++ (sub.topic ∷ []) })
      ∙ append_assoc client.topics (sub.topic ∷ []) (map topic_of subs)

  subscriptions-subscribe_all :
      (subs : List (SubscribeOptions P S)) (c : Consumer)
      → subscribe_all subs c ≡ record c { subscriptions = c.subscriptions ++ subs }
  unfolding subscribe_all subscribe
  subscriptions-subscribe_all [] c =
      ap (λ (xs : List (SubscribeOptions P S)). record c { subscriptions = xs })
        (sym (append-nil c.subscriptions))
  subscriptions-subscribe_all (sub ∷ subs) c =
      subscriptions-subscribe_all subs (subscribe sub c)
      ∙ ap (λ (xs : List (SubscribeOptions P S)). record c { subscriptions = xs })
          (append_assoc c.subscriptions (sub ∷ []) subs)

  find_subscription-topic :
      (now : ℕ) (dlq_fails : Bool) (topic : String) (subs : List (SubscribeOptions P S))
      → contains topic (map topic_of subs) ≡ true
      → (sub : SubscribeOptions P S) × (find_subscription P now dlq_fails topic subs ≡ some sub)
        × (sub.topic ≡ topic)
  unfolding find_subscription
  find_subscription-topic now dlq_fails topic [] listed = absurd (cc)
  find_subscription-topic now dlq_fails topic (sub ∷ subs) listed =
      elim (Bool-cases (sub.topic == topic)) [
        | inl same ↦ (sub, rw same refl, (eq_iff sub.topic topic).0 same)
        | inr other ↦
            let (s, found, same) =
              find_subscription-topic now dlq_fails topic subs (ground arith) in
            (s, rw other found, same)
      ]

  topics-run_if :
      (subs : List (SubscribeOptions P S)) (client : Client)
      → (run_if subs client).topics ≡ client.topics
  topics-run_if [] client = refl
  topics-run_if (sub ∷ subs) client = refl

  -- Once the consumer has started, Kafka sends it messages of exactly the registered topics, and
  -- for each of them `dispatch` finds a handler of that topic: no message is ignored.
  pub started-handles :
      (now : ℕ) (dlq_fails : Bool) (subs : List (SubscribeOptions P S))
      → ((started subs).client.topics ≡ map topic_of subs)
        × ((topic : String)
            → contains topic (started subs).client.topics ≡ true
            → (sub : SubscribeOptions P S) × (find_subscription P now dlq_fails topic
                  (started subs).subscriptions
                ≡ some sub)
              × (sub.topic ≡ topic))
  unfolding started on_application_bootstrap on_module_init
  started-handles now dlq_fails subs =
      let ready = subscriptions-subscribe_all subs (on_module_init new_consumer) in
      let all : (started subs).client.topics ≡ map topic_of subs =
        ap (λ (c : Consumer). (on_application_bootstrap c).client.topics) ready
        ∙ topics-run_if subs (subscribe_each subs (on_module_init new_consumer).client)
        ∙ topics-subscribe_each subs (on_module_init new_consumer).client in
      (
        all,
        λ topic listed.
            let (sub, found, same) =
              find_subscription-topic now dlq_fails topic subs
                (ap (contains topic) (sym all) ∙ listed) in
            (
              sub,
              ap
                    (λ (c : Consumer).
                      find_subscription P now dlq_fails topic
                        (on_application_bootstrap c).subscriptions)
                    ready
                  ∙ found,
              same,
            ),
      )
