-- ===== src/Order/Tests.antt =====
-- The theorems about orders, sagas and the use cases on the database of the examples.
use mathlib.Core.Option
use shop_microservices.Order.ReplyController.Delivery.{dispatch-reply_subscription}
use shop_microservices.Order.ReplyController.{reply_subscription}
use shop_microservices.Order.Orchestrator.Consistency.{IsConsistent}
use shop_microservices.Order.Orchestrator.{SagaReply, on_reply}
use shop_microservices.Order.Orchestrator.Progress.{answer_for, progress_of}
use shop_microservices.Kafka.{KafkaEnvelope, SubscribeOptions, dispatch, find_subscription}
use shop_microservices.Prelude.{some, String, false, ◌≡◌, refl, [], ◌∷◌}
use shop_microservices.Order.Status.{OrderStatus}
use shop_microservices.Order.Entity.{Order}
use shop_microservices.Order.Entity.Transitions.{Change}
use shop_microservices.Order.Persistence.Repositories.{Db}
use shop_microservices.Order.UseCases.{CreateOrderInput}
use shop_microservices.Order.UseCases.Creation.{Creates, create_order_starts}
use shop_microservices.Order.Examples.{
  reserved, source, tables, waiting_db, waiting_db-IsConsistent,
}

abbrev cart : CreateOrderInput
cart = record {
  user_id = "u2";
  user_email = "u2@shop.test";
  correlation_id = "c2";
  items = record { product_id = "p1"; quantity = 3 } ∷ [];
}

create_order_starts_example : Creates tables (source (Db tables)) 7 cart waiting_db
create_order_starts_example =
    create_order_starts tables (source (Db tables)) 7 cart waiting_db waiting_db-IsConsistent

abbrev order : Order
order = record {
  id = "o1";
  user_id = "u1";
  user_email = "u1@shop.test";
  status = OrderStatus.pending;
  total = 0;
  items =
      record { id = "i1"; product_id = "p1"; product_name = ""; quantity = 2; unit_price = 0 } ∷ [];
  created_at = 0;
  updated_at = 0;
}

abbrev confirms : Change
confirms =
    Change.confirmation 900
      (record { product_id = "p1"; name = "Mug"; quantity = 2; unit_price = 450 } ∷ [])

abbrev envelope : KafkaEnvelope SagaReply
envelope = record {
  message_id = "m1";
  correlation_id = "c1";
  traceparent = "";
  tracestate = "";
  timestamp = 3;
  source = "product-service";
  retry_count = 0;
  payload = reserved;
}

abbrev subscription : SubscribeOptions SagaReply (Db tables)
subscription =
    reply_subscription tables (source (Db tables)) "query failed" (λ n. n) "orders.stock-reserved"

dispatch-reply_subscription_example :
    let w' =
      dispatch SagaReply 9 false
        (λ raw. some envelope)
        (subscription ∷ [])
        "orders.stock-reserved"
        (some "{}")
        (record { state = waiting_db; dead_letters = [] }) in
    (w' ≡ record {
      state = (on_reply tables (source (Db tables)) 1 (envelope.payload) waiting_db).1;
      dead_letters = [];
    })
    × IsConsistent tables w'.state
    × ((order_id : String)
        → progress_of tables w'.state order_id
          ≡ Option.map
              (answer_for order_id (envelope.payload))
              (progress_of tables waiting_db order_id))
unfolding find_subscription reply_subscription
dispatch-reply_subscription_example =
    dispatch-reply_subscription tables (source (Db tables)) "query failed" (λ n. n) 9 false
      (λ raw. some envelope) (subscription ∷ []) "orders.stock-reserved" "{}" envelope
      (record { state = waiting_db; dead_letters = [] }) waiting_db-IsConsistent refl refl refl
