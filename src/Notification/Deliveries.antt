-- ===== src/Notification/Deliveries.antt =====
-- The deliveries of the events to notification.service.ts, and which of them are the first of their
-- order and kind.
use shop_microservices.Prelude.{
  ℕ, String, ◌==◌, eq_iff, eq_refl, ◌≡◌, Bool, true, false, ◌&&◌, ◌||◌, none, some, List, [], ◌∷◌,
  arith,
}
use shop_microservices.Shared.{KafkaTopic, topic_name}
use shop_microservices.Notification.{
  NotificationLogEntity, Tables, State, Mail, Notice, order_confirmed, order_cancelled,
  pdf_generated, confirmed_mail, cancelled_mail, pdf_mail, log_row, notify,
}

-- An order and a kind of event.
abbrev pub EventKey : Type 0
EventKey = String × String

abbrev pub key_of : Notice → EventKey
key_of (order_confirmed event) = (event.order_id, topic_name KafkaTopic.order_confirmed)
key_of (order_cancelled event) = (event.order_id, topic_name KafkaTopic.order_cancelled)
key_of (pdf_generated event) = (event.order_id, topic_name KafkaTopic.pdf_generated)

abbrev pub mail_of : Notice → Mail
mail_of (order_confirmed event) = confirmed_mail event
mail_of (order_cancelled event) = cancelled_mail event
mail_of (pdf_generated event) = pdf_mail event

abbrev pub correlation_of : Notice → String
correlation_of (order_confirmed event) = event.correlation_id
correlation_of (order_cancelled event) = event.correlation_id
correlation_of (pdf_generated event) = event.correlation_id

abbrev pub same_key : EventKey → EventKey → Bool
same_key a b = a.0 == b.0 && a.1 == b.1

abbrev pub has_key : EventKey → List EventKey → Bool
has_key k [] = false
has_key k (j ∷ js) = same_key k j || has_key k js

-- One delivery: the database takes its insert or fails with an error, at a time.
pub data NoticeDelivery : Type 0 where
  taken : ℕ → Notice → NoticeDelivery
  failed : String → ℕ → Notice → NoticeDelivery

-- The events that are the first of their key among those that the database took.
unfoldable pub firsts : List EventKey → List NoticeDelivery → List Notice
firsts seen [] = []
firsts seen (failed message now notice ∷ ds) = firsts seen ds
firsts seen (taken now notice ∷ ds) = elim (has_key (key_of notice) seen) [
  | true ↦ firsts seen ds
  | false ↦ notice ∷ firsts (key_of notice ∷ seen) ds
]

pub same_key_self : (k : EventKey) → same_key k k ≡ true
same_key_self (a, b) = rw (eq_refl a, eq_refl b)

pub eq_of_same_key : (j k : EventKey) → same_key j k ≡ true → j ≡ k
eq_of_same_key (a, b) (c, d) h = ground (arith, eq_iff a c, eq_iff b d)

module _ (T : Tables) where
  unfoldable pub deliver_all : List NoticeDelivery → State T → State T
  deliver_all [] s = s
  deliver_all (failed message now notice ∷ ds) s =
      deliver_all ds (notify T (some message) now notice s).1
  deliver_all (taken now notice ∷ ds) s = deliver_all ds (notify T none now notice s).1

  abbrev pub entry_key : NotificationLogEntity → EventKey
  entry_key r = (r.order_id, r.event_type)

  -- The log holds exactly the keys that were seen.
  pub record IsLogOf (seen : List EventKey) (log : T.logs.Table) : Type 0 where
    pub rows_seen :
        (k : String) (r : NotificationLogEntity)
        → T.logs.find_one log k ≡ some r
        → has_key (entry_key r) seen ≡ true
    pub seen_rows :
        (key : EventKey)
        → has_key key seen ≡ true
        → (r : NotificationLogEntity) × (T.logs.find_one log r.id ≡ some r) × (entry_key r ≡ key)

  -- The row that the handler inserts.
  abbrev pub attempted : ℕ → Notice → State T → NotificationLogEntity
  attempted now notice s =
      log_row (T.logs.generate s.log) now (key_of notice).0 (key_of notice).1
        (correlation_of notice)
