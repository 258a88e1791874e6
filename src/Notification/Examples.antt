-- ===== src/Notification/Examples.antt =====
-- A confirmation that is delivered three times: the first time the database is away.
use shop_microservices.Prelude.{◌≡◌, refl, List, [], ◌∷◌, ◌++◌, map}
use shop_microservices.Repository.Memory.{memory, memory_unique}
use shop_microservices.Repository.Memory.Rows.{find_one}
use shop_microservices.Shared.{topic_name}
use shop_microservices.Shared.Messages.{OrderConfirmedEvent}
use shop_microservices.Notification.{
  Tables, State, Notice, log_key, same_event, NotificationLogEntity, confirmed_mail,
}
use shop_microservices.Notification.Deliveries.{
  NoticeDelivery, IsLogOf, deliver_all, firsts, mail_of,
}
use shop_microservices.Notification.Once.{mails-deliver_all}

abbrev tables : Tables
tables = record {
  logs = memory NotificationLogEntity log_key;
  unique_event = memory_unique NotificationLogEntity log_key same_event;
}

abbrev empty : State tables
empty = record { log = []; mails = [] }

abbrev event : OrderConfirmedEvent
event = record {
  base = record {
    order_id = "o1";
    user_id = "u1";
    user_email = "u1@shop.test";
    correlation_id = "c1";
  };
  items = [];
  total = 1250;
  confirmed_at = 4;
}

abbrev deliveries : List NoticeDelivery
deliveries =
    NoticeDelivery.failed "connection lost" 5 (Notice.order_confirmed event)
    ∷ NoticeDelivery.taken 6 (Notice.order_confirmed event)
    ∷ NoticeDelivery.taken 7 (Notice.order_confirmed event)
    ∷ []

empty-IsLogOf : IsLogOf tables [] []
unfolding find_one
empty-IsLogOf = record { rows_seen = λ k r h. absurd (cc h); seen_rows = λ k h. absurd (cc h) }

mails-deliver_all_example :
    (deliver_all tables deliveries empty).mails ≡ [] ++ map mail_of (firsts [] deliveries)
mails-deliver_all_example = mails-deliver_all tables deliveries empty [] empty-IsLogOf

one_mail :
    map mail_of (firsts [] deliveries)
    ≡ record {
      correlation_id = "c1";
      to = "u1@shop.test";
      subject = "Order Confirmed #o1";
      details = "Items: 0 | Total: $12.50";
    }
      ∷ []
unfolding firsts confirmed_mail topic_name
one_mail = refl
