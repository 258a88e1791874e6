-- ===== src/Order/ReplyController/Delivery.antt =====
-- A reply that Kafka delivers: the handler rolls back when it throws, and in a consistent database it
-- does not throw.
use mathlib.Core.Option
use shop_microservices.Prelude.{
  ℕ, String, ◌==◌, ◌≡◌, refl, sym, ap, false, Bool, Option, some, List,
}
use shop_microservices.Exec.{Result, ok, err, DataSource, settled, handle_error}
use shop_microservices.Kafka.{
  KafkaEnvelope, SubscribeOptions, World, find_subscription, attempts_of, dispatch, route,
  attempt_each, after_attempt,
}
use shop_microservices.Kafka.Dispatch.{IsAtomic}
use shop_microservices.Order.Status.{
  OrderError, order_not_found, invalid_order_transition, invalid_saga_transition, query_failed,
}
use shop_microservices.Order.Persistence.Repositories.{Tables, Db}
use shop_microservices.Order.Orchestrator.{SagaReply, on_reply, reply_body}
use shop_microservices.Order.Orchestrator.Consistency.{IsConsistent}
use shop_microservices.Order.Orchestrator.Safety.{on_reply_safe}
use shop_microservices.Order.Orchestrator.Progress.{answer_for, progress_of}
use shop_microservices.Order.Orchestrator.Progress.Refinement.{on_reply-progress}
use shop_microservices.Order.ReplyController.{
  on_error, handle, with_message, reply_handler, reply_subscription,
}

module _ (T : Tables) (driver : String) where
  caught_ok :
      (o : Result OrderError (Unit {0}) × Db T)
      → o.0 ≡ ok tt
      → with_message T driver (handle_error (on_error T) o) ≡ (ok tt, o.1)
  caught_ok (ok a, db) h = refl
  caught_ok (err e, db) h = absurd (cc h)

  caught_atomic :
      (db : Db T) (o : Result OrderError (Unit {0}) × Db T) (db' : Db T) (e : String)
      → with_message T driver (handle_error (on_error T) (settled db o)) ≡ (err e, db')
      → db' ≡ db
  unfolding on_error
  caught_atomic db (ok a, s) db' e h = absurd (cc h)
  caught_atomic db (err (order_not_found id), s) db' e h = absurd (cc h)
  caught_atomic db (err (invalid_order_transition from to), s) db' e h = sym (ap (λ o. o.1) h)
  caught_atomic db (err (invalid_saga_transition step), s) db' e h = sym (ap (λ o. o.1) h)
  caught_atomic db (err query_failed, s) db' e h = sym (ap (λ o. o.1) h)

module _ (T : Tables) (D : DataSource OrderError (Db T)) (driver : String) (clock : ℕ → ℕ) where
  pub reply_handler-IsAtomic : IsAtomic (reply_handler T D driver clock)
  unfolding reply_handler handle on_reply
  reply_handler-IsAtomic n envelope db db' e fails =
      caught_atomic T driver db (reply_body T (clock n) envelope.payload db) db' e
        (rw (D.transaction_lem (Unit {0}) (reply_body T (clock n) envelope.payload) db) at fails)

  handled_first :
      (envelope : KafkaEnvelope SagaReply) (db : Db T)
      → IsConsistent T db
      → reply_handler T D driver clock 1 envelope db
        ≡ (ok tt, (on_reply T D (clock 1) envelope.payload db).1)
  unfolding reply_handler handle
  handled_first envelope db c =
      caught_ok T driver (on_reply T D (clock 1) envelope.payload db)
        (on_reply_safe T D (clock 1) db c envelope.payload).0

  -- A reply that arrives at its subscription while the database is consistent is handled at the first
  -- attempt: the database is then that which the orchestrator's handler of the reply leaves, it is
  -- consistent, and the saga's step and the order's status are those to which the machine of an order
  -- comes with the reply, for its order as for every other. No letter goes to the dead-letter topic.
  pub dispatch-reply_subscription :
      (now : ℕ) (dlq_fails : Bool) (parse : String → Option (KafkaEnvelope SagaReply))
      (subscriptions : List (SubscribeOptions SagaReply (Db T))) (topic raw : String)
      (envelope : KafkaEnvelope SagaReply) (w : World SagaReply (Db T))
      → IsConsistent T w.state
      → raw == "" ≡ false
      → parse raw ≡ some envelope
      → find_subscription SagaReply now dlq_fails topic subscriptions
        ≡ some (reply_subscription T D driver clock topic)
      → let w' = dispatch SagaReply now dlq_fails parse subscriptions topic (some raw) w in
        (w' ≡ record w { state = (on_reply T D (clock 1) envelope.payload w.state).1 })
        × IsConsistent T w'.state
        × ((order_id : String)
            → progress_of T w'.state order_id
              ≡ Option.map (answer_for order_id envelope.payload) (progress_of T w.state order_id))
  unfolding dispatch route attempts_of attempt_each after_attempt reply_subscription
  dispatch-reply_subscription now dlq_fails parse subscriptions topic raw envelope w c text parsed
        found =
      rw (dispatch, text, parsed, found, route, handled_first envelope w.state c)
        (
          refl,
          (on_reply_safe T D (clock 1) w.state c envelope.payload).1,
          λ order_id. on_reply-progress T D (clock 1) w.state envelope.payload order_id c,
        )
