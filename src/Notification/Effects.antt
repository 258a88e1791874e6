-- ===== src/Notification/Effects.antt =====
-- What a delivery does: nothing where its insert fails or is refused, or the log row and the mail.
use shop_microservices.Prelude.{ℕ, String, ◌≡◌, refl, true, false, none, some, [], ◌∷◌, ◌++◌}
use shop_microservices.Exec.{ok, err}
use shop_microservices.Shared.{KafkaTopic, topic_name}
use shop_microservices.Notification.{
  on_insert_error, notify_order_confirmed, notify_order_cancelled, notify_pdf_ready,
  NotificationLogEntity, Tables, State, Notice, order_confirmed, order_cancelled, pdf_generated,
  confirmed_mail, log_row, insert_log, mark_sent, mail_if, notify, query_failed,
}
use shop_microservices.Notification.Deliveries.{mail_of, attempted}

module _ (T : Tables) where
  pub notify_fails :
      (message : String) (now : ℕ) (notice : Notice) (s : State T)
      → notify T (some message) now notice s ≡ (err (query_failed message), s)
  unfolding notify
  notify_fails message now (order_confirmed event) s = refl
  notify_fails message now (order_cancelled event) s = refl
  notify_fails message now (pdf_generated event) s = refl

  module _ (now : ℕ) (order_id : String) (topic : KafkaTopic) (correlation_id : String)
      (s : State T) where
    abbrev tried : NotificationLogEntity
    tried = log_row (T.logs.generate s.log) now order_id (topic_name topic) correlation_id

    mark_sent_again :
        T.unique_event.insert s.log tried ≡ none
        → mark_sent T none now order_id topic correlation_id s ≡ (ok false, s)
    unfolding mark_sent
    mark_sent_again e = rw (mark_sent, insert_log, e, on_insert_error)

    mark_sent_first :
        (log : T.logs.Table)
        → T.unique_event.insert s.log tried ≡ some log
        → mark_sent T none now order_id topic correlation_id s ≡ (ok true, record s { log = log })
    unfolding mark_sent
    mark_sent_first log e = rw (mark_sent, insert_log, e)

  pub notify_duplicate :
      (now : ℕ) (notice : Notice) (s : State T)
      → T.unique_event.insert s.log (attempted T now notice s) ≡ none
      → notify T none now notice s ≡ (ok tt, s)
  unfolding notify
  notify_duplicate now (order_confirmed event) s e = rw (
    notify,
    notify_order_confirmed,
    mark_sent_again now event.order_id KafkaTopic.order_confirmed event.correlation_id s e,
    mail_if,
  )
  notify_duplicate now (order_cancelled event) s e = rw (
    notify,
    notify_order_cancelled,
    mark_sent_again now event.order_id KafkaTopic.order_cancelled event.correlation_id s e,
    mail_if,
  )
  notify_duplicate now (pdf_generated event) s e = rw (
    notify,
    notify_pdf_ready,
    mark_sent_again now event.order_id KafkaTopic.pdf_generated event.correlation_id s e,
    mail_if,
  )

  pub notify_first :
      (now : ℕ) (notice : Notice) (s : State T) (log : T.logs.Table)
      → T.unique_event.insert s.log (attempted T now notice s) ≡ some log
      → notify T none now notice s
        ≡ (ok tt, record { log = log; mails = s.mails ++ (mail_of notice ∷ []) })
  unfolding notify confirmed_mail
  notify_first now (order_confirmed event) s log e = rw (
    notify,
    notify_order_confirmed,
    mark_sent_first now event.order_id KafkaTopic.order_confirmed event.correlation_id s log e,
    mail_if,
  )
  notify_first now (order_cancelled event) s log e = rw (
    notify,
    notify_order_cancelled,
    mark_sent_first now event.order_id KafkaTopic.order_cancelled event.correlation_id s log e,
    mail_if,
  )
  notify_first now (pdf_generated event) s log e = rw (
    notify,
    notify_pdf_ready,
    mark_sent_first now event.order_id KafkaTopic.pdf_generated event.correlation_id s log e,
    mail_if,
  )
