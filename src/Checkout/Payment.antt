-- ===== src/Checkout/Payment.antt =====
-- The stage of the payment: what payment-service did and how far the order is agree.
use Prim.Native.String.{◌++◌ as ◌++ₛ◌}
use shop_microservices.Prelude.{
  List, ℕ, String, ◌==◌, ◌≡◌, refl, sym, ◌∙◌, ap, subst, false, none, some, ◌⊎◌, inl, inr, eq_refl,
  Option-cases,
}
use shop_microservices.Shared.Messages.{
  Payload, ProcessPaymentCommand, PaymentProcessedEvent, PaymentFailedEvent, StockItem,
}
use shop_microservices.Shared.{KafkaTopic}
use shop_microservices.Outbox
use shop_microservices.Exec.{DataSource, DataSourceBeside}
use shop_microservices.Order.Status.{OrderError, same_step}
use shop_microservices.Order.Persistence.Repositories as Orders
use shop_microservices.Order.Orchestrator.{SagaReply, payment_processed, payment_failed, on_reply}
use shop_microservices.Order.Orchestrator.Consistency.{IsConsistent}
use shop_microservices.Order.Orchestrator.Safety.{reply_order}
use shop_microservices.Order.Orchestrator.Progress.{
  Progress, answer, progress_of, paying, releasing, paid,
}
use shop_microservices.Order.Orchestrator.Progress.Refinement.{on_reply-progress}
use shop_microservices.Product.Entity as Products
use shop_microservices.Payment.Entity as Payments
use shop_microservices.Payment.Entity.{PaymentEntity, insufficient_funds, error_message}
use shop_microservices.Payment.SagaController.{handle_process_payment, pending_payment}
use shop_microservices.Payment.SagaController.Outcome.{payment_row, process_and_answer_ends}
use shop_microservices.Payment.SagaController.Replies.{
  Paid, Refused, Ended-told, handle_process_payment_new,
}
use shop_microservices.Checkout.{Shop, sent, to_orders, pay_stage}
use shop_microservices.Order.Orchestrator.SagaIds.{HasSaga}
use shop_microservices.Order.Orchestrator.Lines.{lines_at}
use shop_microservices.Checkout.Release.{Releases, payment_failed-Releases}
use shop_microservices.Checkout.Steps.{sent-write}

-- The order of a reply is where the reply takes it.
pub reply-progress :
    (O : Orders.Tables) (D : DataSource OrderError (Orders.Db O)) (now : ℕ) (db : Orders.Db O)
    (reply : SagaReply) (order_id : String) (p : Progress)
    → IsConsistent O db
    → reply_order reply ≡ order_id
    → progress_of O db order_id ≡ some p
    → progress_of O (on_reply O D now reply db).1 order_id ≡ some (answer reply p)
reply-progress O D now db reply order_id p c about before =
    on_reply-progress O D now db reply order_id c ∙ rw (before, about, eq_refl order_id)

module _ (Y : Payments.Tables) where
  -- No payment of the order is stored yet.
  abbrev pub NotPaid : Payments.Db Y → String → Type 0
  NotPaid db order_id =
      (r : PaymentEntity)
      → Y.payments.find_one db.payments r.id ≡ some r
      → (order_id == r.order_id) ≡ false

  payment_accepted :
      (now : ℕ) (command : ProcessPaymentCommand) (db : Payments.Db Y)
      → NotPaid db command.order_id
      → (t : Y.payments.Table) × (Y.unique_order.insert db.payments (payment_row Y now command db)
          ≡ some t)
  unfolding pending_payment
  payment_accepted now command db fresh =
      elim (Option-cases (Y.unique_order.insert db.payments (payment_row Y now command db))) [
        | inr accepted ↦ accepted
        | inl refused ↦
            let (r, stored, clashes) =
              Y.unique_order.insert_none db.payments (payment_row Y now command db) refused in
            absurd (cc (clashes, fresh r stored))
      ]

  -- A new command about an order that is not paid is answered: it is paid or refused.
  pub payment_answered :
      (D : DataSource Payments.PaymentError (Payments.Db Y)) (now : ℕ) (uuid : String)
      (command : ProcessPaymentCommand) (db : Payments.Db Y)
      → Y.keys.find_one db.keys command.command_id ≡ none
      → NotPaid db command.order_id
      → let db' = (handle_process_payment Y now D uuid command db).1 in
        Paid Y now uuid command db db' ⊎ Refused Y now command db db'
  payment_answered D now uuid command db unseen fresh =
      let (t, accepted) = payment_accepted now command db fresh in
      let (db', runs, ends) = process_and_answer_ends Y now uuid command db t accepted in
      subst (λ r. Paid Y now uuid command db r.1 ⊎ Refused Y now command db r.1)
        (sym (handle_process_payment_new Y D now uuid command db db' unseen runs))
        (Ended-told Y now uuid command db db' ends)

module _ {O : Orders.Tables} {P : Products.Tables} {C : Products.Cache} {Y : Payments.Tables}
    (DO : DataSource OrderError (Orders.Db O))
    (DP : DataSourceBeside Products.ProductError (Products.Db P) C.Store)
    (DY : DataSource Payments.PaymentError (Payments.Db Y)) (at : ℕ → ℕ) (uuid : String)
    (command : ProcessPaymentCommand) (saga_id : String) (items : List StockItem)
    (s : Shop O P C Y) where
  -- The order is paid and the payment made, or no money has moved and exactly the items of the order
  -- are to be released.
  abbrev pub PaidOrNot : Shop O P C Y → Type 0
  PaidOrNot s' =
      ((progress_of O s'.orders command.order_id ≡ some paid)
        × Paid Y (at 3) uuid command s.payments s'.payments)
      ⊎ ((progress_of O s'.orders command.order_id ≡ some releasing)
          × Refused Y (at 3) command s.payments s'.payments
          × Releases O s'.orders command.order_id saga_id items)

  -- The reply that payment-service has queued is the one that order-service takes.
  told :
      (topic : KafkaTopic) (db' : Payments.Db Y) (payload : Payload)
      → db'.outbox
        ≡ Outbox.write Y.outbox
            (at 3)
            command.order_id
            topic
            command.order_id
            payload
            s.payments.outbox
      → PaidOrNot (to_orders DO DP DY (at 4) (some payload) (record s { payments = db' }))
      → PaidOrNot (
          to_orders DO DP DY
            (at 4)
            (sent Y.outbox s.payments.outbox db'.outbox)
            (record s { payments = db' }))
  told topic db' payload queued =
      subst (λ m. PaidOrNot (to_orders DO DP DY (at 4) m (record s { payments = db' })))
        (sym (
          ap (sent Y.outbox s.payments.outbox) queued
          ∙ sent-write Y.outbox (at 3) command.order_id command.order_id topic payload
              s.payments.outbox))

  pub pay_stage-PaidOrNot :
      IsConsistent O s.orders
      → HasSaga O s.orders command.order_id saga_id
      → progress_of O s.orders command.order_id ≡ some paying
      → lines_at O s.orders.orders command.order_id ≡ some items
      → Y.keys.find_one s.payments.keys command.command_id ≡ none
      → NotPaid Y s.payments command.order_id
      → PaidOrNot (pay_stage DO DP DY at uuid (some (Payload.process_payment command)) s)
  unfolding same_step
  pay_stage-PaidOrNot c has before ordered unseen fresh =
      let db' = (handle_process_payment Y (at 3) DY uuid command s.payments).1 in
      elim (payment_answered Y DY (at 3) uuid command s.payments unseen fresh) [
        | inl done ↦
            let event : PaymentProcessedEvent = record {
              base = command.base;
              transaction_id = "txn-" ++ₛ uuid;
            } in
            told KafkaTopic.payment_processed db' (Payload.payment_processed event) (done.5) (
              inl (
                reply-progress O DO (at 4) s.orders (payment_processed event) command.order_id
                    paying c refl before,
                done,
              ))
        | inr refused ↦
            let event : PaymentFailedEvent = record {
              base = command.base;
              reason = error_message (insufficient_funds refused.0 command.amount);
            } in
            told KafkaTopic.payment_failed db' (Payload.payment_failed event) (refused.5) (
              inr (
                reply-progress O DO (at 4) s.orders (payment_failed event) command.order_id paying c
                    refl before,
                refused,
                payment_failed-Releases O DO (at 4) s.orders event saga_id items c has before
                    ordered,
              ))
      ]
