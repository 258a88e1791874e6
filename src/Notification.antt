-- ===== src/Notification.antt =====
-- services/notification-service/src/notification: notification.service.ts,
-- notification-log.entity.ts and the handlers of notification.controller.ts. A mail is a line that
-- the service logs.
pub mod Deliveries
pub mod Effects
pub mod Once
mod Examples
use Prim.Native.String.{◌++◌ as ◌++ₛ◌}
use shop_microservices.Prelude.{
  ℕ, ◌/◌, ◌%◌, String, ◌==◌, Bool, true, false, ◌&&◌, Option, none, some, List, [], ◌∷◌, ◌++◌,
  length, if◌then◌else◌,
}
use shop_microservices.Prelude.Decimal.{show_number, to_fixed}
use shop_microservices.Exec.{Result, ok, err, Exec, pure, throw, modify, try_catch, ◌>>=◌, ◌>>◌}
use shop_microservices.Repository.{Repository, Unique}
use shop_microservices.Kafka.{Handler, SubscribeOptions}
use shop_microservices.Shared.{KafkaTopic, topic_name}
use shop_microservices.Shared.Messages.{OrderConfirmedEvent, OrderCancelledEvent, PdfGeneratedEvent}

pub record NotificationLogEntity : Type 0 where
  pub id : String
  pub order_id : String
  pub event_type : String
  pub correlation_id : Option String
  pub created_at : ℕ

abbrev pub log_key : NotificationLogEntity → String
log_key r = r.id

-- `@Unique(['orderId', 'eventType'])`
abbrev pub same_event : NotificationLogEntity → NotificationLogEntity → Bool
same_event a b = a.order_id == b.order_id && a.event_type == b.event_type

pub record Tables : Type 1 where
  pub logs : Repository NotificationLogEntity log_key
  pub unique_event : Unique logs same_event

-- `code === '23505'`, or any other error of the database with its message.
pub data NotificationError : Type 0 where
  unique_violation : NotificationError
  query_failed : String → NotificationError

-- One line `[correlationId] [EMAIL] To: … | Subject: … | …`.
pub record Mail : Type 0 where
  pub correlation_id : String
  pub to : String
  pub subject : String
  pub details : String

pub record State (T : Tables) : Type 0 where
  pub log : T.logs.Table
  pub mails : List Mail

unfoldable pub confirmed_mail : OrderConfirmedEvent → Mail
unfolding show_number to_fixed
confirmed_mail event = record {
  correlation_id = event.correlation_id;
  to = event.user_email;
  subject = "Order Confirmed #" ++ₛ event.order_id;
  details =
      "Items: " ++ₛ (show_number (length event.items) ++ₛ (" | Total: $" ++ₛ to_fixed event.total));
}

unfoldable pub cancelled_mail : OrderCancelledEvent → Mail
cancelled_mail event = record {
  correlation_id = event.correlation_id;
  to = event.user_email;
  subject = "Order Cancelled #" ++ₛ event.order_id;
  details = "Reason: " ++ₛ event.reason;
}

unfoldable pub pdf_mail : PdfGeneratedEvent → Mail
pdf_mail event = record {
  correlation_id = event.correlation_id;
  to = event.user_email;
  subject = "Your Order Receipt is Ready";
  details = "Order: #" ++ₛ (event.order_id ++ₛ (" | PDF: " ++ₛ event.pdf_path));
}

-- The row that the insert makes of its three columns.
unfoldable pub log_row : String → ℕ → String → String → String → NotificationLogEntity
log_row id now order_id event_type correlation_id = record {
  id = id;
  order_id = order_id;
  event_type = event_type;
  correlation_id = some correlation_id;
  created_at = now;
}

-- The events that the service mails about, one for each subscription.
pub data Notice : Type 0 where
  order_confirmed : OrderConfirmedEvent → Notice
  order_cancelled : OrderCancelledEvent → Notice
  pdf_generated : PdfGeneratedEvent → Notice

module _ (T : Tables) where
  abbrev pub Action : Type 0 → Type 0
  Action A = Exec NotificationError (State T) A

  -- `this.logRepo.insert(…)`; `failure` is what goes wrong with the query itself, if anything does.
  unfoldable pub insert_log : Option String → ℕ → String → String → String → Action (Unit {0})
  unfolding log_row
  insert_log failure now order_id event_type correlation_id s = elim failure [
    | some message ↦ throw (query_failed message) s
    | none ↦
        elim (T.unique_event.insert s.log
          (log_row (T.logs.generate s.log) now order_id event_type correlation_id)) [
            | none ↦ throw unique_violation s
            | some log ↦ pure tt (record s { log = log })
          ]
  ]

  unfoldable pub on_insert_error : NotificationError → Action Bool
  on_insert_error unique_violation = pure false
  on_insert_error (query_failed message) = throw (query_failed message)

  -- Whether this is the first time.
  unfoldable pub mark_sent : Option String → ℕ → String → KafkaTopic → String → Action Bool
  unfolding insert_log on_insert_error
  mark_sent failure now order_id event_type correlation_id =
      try_catch
        (insert_log failure now order_id (topic_name event_type) correlation_id >> pure true)
        on_insert_error

  -- What each handler does after `markSent`.
  unfoldable pub mail_if : Bool → Mail → Action (Unit {0})
  mail_if first mail =
      modify λ s. record s { mails = if first then s.mails ++ (mail ∷ []) else s.mails }

  unfoldable pub notify_order_confirmed :
      Option String → ℕ → OrderConfirmedEvent → Action (Unit {0})
  unfolding mark_sent mail_if
  notify_order_confirmed failure now event =
      mark_sent failure now event.order_id KafkaTopic.order_confirmed event.correlation_id
      >>= λ first. mail_if first (confirmed_mail event)

  unfoldable pub notify_order_cancelled :
      Option String → ℕ → OrderCancelledEvent → Action (Unit {0})
  unfolding mark_sent mail_if
  notify_order_cancelled failure now event =
      mark_sent failure now event.order_id KafkaTopic.order_cancelled event.correlation_id
      >>= λ first. mail_if first (cancelled_mail event)

  unfoldable pub notify_pdf_ready : Option String → ℕ → PdfGeneratedEvent → Action (Unit {0})
  unfolding mark_sent mail_if
  notify_pdf_ready failure now event =
      mark_sent failure now event.order_id KafkaTopic.pdf_generated event.correlation_id
      >>= λ first. mail_if first (pdf_mail event)

  -- The three handlers of the controller.
  unfoldable pub notify : Option String → ℕ → Notice → Action (Unit {0})
  unfolding notify_order_confirmed notify_order_cancelled notify_pdf_ready
  notify failure now (order_confirmed event) = notify_order_confirmed failure now event
  notify failure now (order_cancelled event) = notify_order_cancelled failure now event
  notify failure now (pdf_generated event) = notify_pdf_ready failure now event

  abbrev pub with_message :
      Result NotificationError (Unit {0}) × State T → Result String (Unit {0}) × State T
  with_message (ok a, s) = (ok a, s)
  with_message (err unique_violation, s) = (err "duplicate key value violates unique constraint", s)
  with_message (err (query_failed message), s) = (err message, s)

  -- `clock n` is the time of the n-th attempt, `failures n` what goes wrong with its query.
  unfoldable pub subscription :
      (ℕ → Option String) → (ℕ → ℕ) → KafkaTopic → SubscribeOptions Notice (State T)
  unfolding notify
  subscription failures clock topic = record {
    topic = topic_name topic;
    handler = λ attempt e s. with_message (notify (failures attempt) (clock attempt) e.payload s);
    max_retries = none;
  }
