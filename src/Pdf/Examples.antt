-- ===== src/Pdf/Examples.antt =====
-- A receipt that is written, and one whose write breaks off.
use shop_microservices.Prelude.{ℕ, ◌≡◌, refl, false, inl, none, some, [], ◌∷◌, ◌++◌}
use shop_microservices.Kafka.{KafkaEnvelope, World, dispatch}
use shop_microservices.Kafka.Producer.{Moment}
use shop_microservices.Shared.{KafkaTopic, topic_name}
use shop_microservices.Shared.Messages.{OrderConfirmedEvent}
use shop_microservices.Pdf.{
  Circumstances, Config, State, WriteOutcome, finished, broken_off, generate_order_pdf,
  subscription,
}
use shop_microservices.Pdf.Receipts.{
  Announced, announcement, path, remains, generate_order_pdf-Announced,
}
use shop_microservices.Pdf.Redelivery.{dispatch_announces_broken}

abbrev config : Config
config = record {
  pdf_dir = "/app/pdfs";
  source = "pdf-service";
  show_date = λ t. "1/2/2026";
  stringify = λ e. "{}";
}

abbrev event : OrderConfirmedEvent
event = record {
  base = record {
    order_id = "o1";
    user_id = "u1";
    user_email = "u1@shop.test";
    correlation_id = "c1";
  };
  items = record { product_id = "p1"; name = "Widget"; quantity = 2; unit_price = 1000 } ∷ [];
  total = 2000;
  confirmed_at = 4;
}

abbrev moment : Moment
moment = record { now = 9; random_uuid = "m9"; traceparent = none; tracestate = none }

abbrev facing : WriteOutcome → Circumstances
facing outcome = record { moment = moment; write = outcome; refusal = none }

abbrev empty : State
empty = record { files = λ path. none; sent = [] }

generate_order_pdf-Announced_example :
    Announced config
      (facing finished)
      event
      empty
      (generate_order_pdf config (facing finished) event empty)
generate_order_pdf-Announced_example =
    generate_order_pdf-Announced config (facing finished) event empty (inl refl)

abbrev disk_full : ℕ → Circumstances
disk_full n = facing (broken_off "ENOSPC" ("Order Receipt" ∷ []))

abbrev envelope : KafkaEnvelope OrderConfirmedEvent
envelope = record {
  message_id = "m1";
  correlation_id = "c1";
  traceparent = "";
  tracestate = "";
  timestamp = 3;
  source = "order-service";
  retry_count = 0;
  payload = event;
}

abbrev world : World OrderConfirmedEvent State
world = record { state = empty; dead_letters = [] }

dispatch_announces_broken_example :
    let w' =
      dispatch OrderConfirmedEvent 9 false
        (λ raw. some envelope)
        (subscription config disk_full ∷ [])
        (topic_name KafkaTopic.order_confirmed)
        (some "{}")
        world in
    (w'.dead_letters ≡ [])
    × (w'.state.sent ≡ [] ++ (announcement config (disk_full 2) event ∷ []))
    × (w'.state.files (path config (disk_full 1) event)
        ≡ some (remains config (disk_full 1) event ("Order Receipt" ∷ [])))
dispatch_announces_broken_example =
    dispatch_announces_broken config disk_full (λ raw. some envelope) 9 false "{}" "ENOSPC"
      ("Order Receipt" ∷ []) envelope world refl refl refl refl refl
