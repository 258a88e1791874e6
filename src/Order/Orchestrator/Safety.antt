-- ===== src/Order/Orchestrator/Safety.antt =====
-- The replies of the participants, in any order and with any repetition, against the orders.
use shop_microservices.Prelude.{
  none, some, false, ◌∙◌, ◌≢◌, ℕ, String, ◌≡◌, refl, List, [], ◌∷◌, arith,
}
use shop_microservices.Exec.{Result, ok, err, DataSource, settled}
use shop_microservices.Order.Status.{OrderStatus, SagaStep, SagaStatus, is_running, OrderError}
use shop_microservices.Order.Persistence.{SagaStateOrmEntity}
use shop_microservices.Order.Persistence.Repositories.{Tables, Db}
use shop_microservices.Order.Orchestrator.Loading.{Frame, is_asked}
use shop_microservices.Order.Orchestrator.{
  SagaReply, stock_reserved, stock_reservation_failed, payment_processed, payment_failed,
  stock_released, reply_body, on_reply, load_saga_for_step,
}
use shop_microservices.Order.Orchestrator.Consistency.{IsConsistent}
use shop_microservices.Order.Orchestrator.Replies.{
  Handled, stock_reserved-Handled, stock_reservation_failed-Handled, payment_processed-Handled,
  payment_failed-Handled, stock_released-Handled,
}

-- The order that a reply is about, and the step whose answer it is.
abbrev pub reply_order : SagaReply → String
reply_order (stock_reserved e) = e.order_id
reply_order (stock_reservation_failed e) = e.order_id
reply_order (payment_processed e) = e.order_id
reply_order (payment_failed e) = e.order_id
reply_order (stock_released e) = e.order_id

abbrev pub reply_step : SagaReply → SagaStep
reply_step (stock_reserved e) = SagaStep.reserve_stock
reply_step (stock_reservation_failed e) = SagaStep.reserve_stock
reply_step (payment_processed e) = SagaStep.process_payment
reply_step (payment_failed e) = SagaStep.process_payment
reply_step (stock_released e) = SagaStep.release_stock

-- The step to which a reply moves the saga that waits for it, and the status that the order has then.
abbrev pub next_step : SagaReply → SagaStep
next_step (stock_reserved e) = SagaStep.process_payment
next_step (stock_reservation_failed e) = SagaStep.failed
next_step (payment_processed e) = SagaStep.completed
next_step (payment_failed e) = SagaStep.release_stock
next_step (stock_released e) = SagaStep.failed

abbrev pub next_status : SagaReply → OrderStatus
next_status (stock_reserved e) = OrderStatus.confirmed
next_status (stock_reservation_failed e) = OrderStatus.cancelled
next_status (payment_processed e) = OrderStatus.confirmed
next_status (payment_failed e) = OrderStatus.confirmed
next_status (stock_released e) = OrderStatus.cancelled

not_running-asked :
    (order_id : String) (step : SagaStep) (s : SagaStateOrmEntity)
    → s.status ≢ SagaStatus.running
    → is_asked order_id step s ≡ false
unfolding is_running
not_running-asked order_id step s h = ground arith

pub settled_ok :
    {E S : Type 0} (s : S) (r : Result E (Unit {0}) × S) → r.0 ≡ ok tt → settled s r ≡ r
settled_ok s (ok a, s') e = refl
settled_ok s (err e, s') h = absurd (cc)

-- A reply that no saga waits for does nothing.
body_ignores :
    (T : Tables) (now : ℕ) (reply : SagaReply) (db : Db T)
    → load_saga_for_step T (reply_order reply) (reply_step reply) db ≡ none
    → reply_body T now reply db ≡ (ok tt, db)
unfolding reply_body
body_ignores T now (stock_reserved e) db h = rw h
body_ignores T now (stock_reservation_failed e) db h = rw h
body_ignores T now (payment_processed e) db h = rw h
body_ignores T now (payment_failed e) db h = rw h
body_ignores T now (stock_released e) db h = rw h

module _ (T : Tables) (now : ℕ) (db : Db T) (c : IsConsistent T db) where
  body-Handled :
      (reply : SagaReply)
      → Handled T now db c
          (reply_order reply)
          (reply_step reply)
          (next_step reply)
          (next_status reply)
          (reply_body T now reply db)
  unfolding reply_body
  body-Handled (stock_reserved e) = stock_reserved-Handled T now db c e
  body-Handled (stock_reservation_failed e) = stock_reservation_failed-Handled T now db c e
  body-Handled (payment_processed e) = payment_processed-Handled T now db c e
  body-Handled (payment_failed e) = payment_failed-Handled T now db c e
  body-Handled (stock_released e) = stock_released-Handled T now db c e

module _ (T : Tables) (D : DataSource OrderError (Db T)) (now : ℕ) (db : Db T)
    (c : IsConsistent T db) (reply : SagaReply) where
  pub on_reply-body : on_reply T D now reply db ≡ reply_body T now reply db
  unfolding on_reply
  on_reply-body =
      let b = body-Handled T now db c reply in
      D.transaction_lem (Unit {0}) (reply_body T now reply) db
      ∙ settled_ok db (reply_body T now reply db) b.0

  pub on_reply-Handled :
      Handled T now db c
        (reply_order reply)
        (reply_step reply)
        (next_step reply)
        (next_status reply)
        (on_reply T D now reply db)
  on_reply-Handled = rw on_reply-body (body-Handled T now db c reply)

  pub on_reply-ignored :
      load_saga_for_step T (reply_order reply) (reply_step reply) db ≡ none
      → on_reply T D now reply db ≡ (ok tt, db)
  on_reply-ignored none_waits = on_reply-body ∙ body_ignores T now reply db none_waits

  -- In a consistent database no reply is refused: its handler returns without an error, whatever
  -- its kind, its order and its time, and leaves the database consistent. It changes no saga but a
  -- running one of its order that waits for it, and the status of no other order.
  pub on_reply_safe :
      ((on_reply T D now reply db).0 ≡ ok tt)
      × IsConsistent T (on_reply T D now reply db).1
      × Frame T db (reply_order reply) (reply_step reply) (on_reply T D now reply db).1
  on_reply_safe = (on_reply-Handled.0, on_reply-Handled.1, on_reply-Handled.3)

-- A step is answered once: after one reply to a step of an order, any other reply to that step, the
-- same one redelivered or one that says the opposite, leaves the database as it is.
pub answered_once :
    (T : Tables) (D : DataSource OrderError (Db T)) (now later : ℕ) (db : Db T)
    (first second : SagaReply)
    → IsConsistent T db
    → reply_order second ≡ reply_order first
    → reply_step second ≡ reply_step first
    → let db' = (on_reply T D now first db).1 in on_reply T D later second db' ≡ (ok tt, db')
answered_once T D now later db first second c same_order same_step =
    let h = on_reply-Handled T D now db c first in
    let db' = (on_reply T D now first db).1 in
    on_reply-body T D later db' h.1 second
    ∙ body_ignores T later second db' (rw (same_order, same_step) h.2)

-- Replies in the order in which they arrive, each with its time.
unfoldable pub replies :
    (T : Tables) → DataSource OrderError (Db T) → List (ℕ × SagaReply) → Db T → Db T
replies T D [] db = db
replies T D ((now, reply) ∷ rest) db = replies T D rest (on_reply T D now reply db).1

replies-IsConsistent :
    (T : Tables) (D : DataSource OrderError (Db T)) (events : List (ℕ × SagaReply)) (db : Db T)
    → IsConsistent T db
    → IsConsistent T (replies T D events db)
unfolding replies
replies-IsConsistent T D [] db c = c
replies-IsConsistent T D ((now, reply) ∷ rest) db c =
    replies-IsConsistent T D rest (on_reply T D now reply db).1 (on_reply_safe T D now db c reply).1

-- A saga that is completed or failed stays as it is, whatever replies arrive in whatever order.
pub settled_saga_stays :
    (T : Tables) (D : DataSource OrderError (Db T)) (events : List (ℕ × SagaReply)) (db : Db T)
    (k : String) (s : SagaStateOrmEntity)
    → IsConsistent T db
    → T.sagas.find_one db.sagas k ≡ some s
    → s.status ≢ SagaStatus.running
    → T.sagas.find_one (replies T D events db).sagas k ≡ some s
unfolding replies
settled_saga_stays T D [] db k s c e h = e
settled_saga_stays T D ((now, reply) ∷ rest) db k s c e h =
    let (_, c', frame) = on_reply_safe T D now db c reply in
    settled_saga_stays T D rest (on_reply T D now reply db).1 k s c'
      (frame.sagas k s e (not_running-asked (reply_order reply) (reply_step reply) s h)) h
