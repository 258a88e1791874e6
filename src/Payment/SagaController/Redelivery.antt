-- ===== src/Payment/SagaController/Redelivery.antt =====
-- A payment command that is delivered again: its reply goes out again and nothing else happens.
use shop_microservices.Payment.SagaController.Replies.{
  handle_process_payment_seen, handle_process_payment_new, handle_process_payment_clash,
}
use shop_microservices.Prelude.{
  ℕ, String, ◌≡◌, inl, inr, refl, sym, ap, subst, Option-cases, ◌∙◌, eq_refl,
}
use shop_microservices.Shared.{KafkaTopic}
use shop_microservices.Shared.Messages.{ProcessPaymentCommand, Payload}
use shop_microservices.Exec.{ok, DataSource}
use shop_microservices.Outbox
use shop_microservices.Idempotency.{stored_result}
use shop_microservices.Payment.Entity.{PaymentError, insufficient_funds, Tables, Db}
use shop_microservices.Payment.SagaController.{
  transaction_id_of, write, processed_reply, failed_reply, once, handle_process_payment,
}
use shop_microservices.Payment.SagaController.Outcome.{
  payment_row, with_pending, charged, answered, Ended, process_and_answer_ends,
}

module _ (T : Tables) (D : DataSource PaymentError (Db T)) where
  -- The reply that was queued is the one that every later delivery queues again.
  abbrev pub Answered : ℕ → ProcessPaymentCommand → Db T → Db T → Type 0
  Answered now command db db' =
      (topic : KafkaTopic) × (payload : Payload) × (db'.outbox
        ≡ Outbox.write T.outbox now command.order_id topic command.order_id payload db.outbox)
      × ((later : ℕ) (uuid : String)
          → handle_process_payment T later D uuid command db'
            ≡ (ok tt, write T later command.order_id topic payload db'))

  answered-Answered :
      (now : ℕ) (command : ProcessPaymentCommand) (db x : Db T) (topic : KafkaTopic)
      (payload : Payload)
      → x.outbox ≡ db.outbox
      → Answered now command db (answered T now command topic payload x)
  unfolding write
  answered-Answered now command db x topic payload same = (
    topic,
    payload,
    ap (Outbox.write T.outbox now command.order_id topic command.order_id payload) same,
    λ later uuid.
        handle_process_payment_seen T D later uuid command (answered T now command topic payload x)
          (stored_result now command.command_id topic payload)
          (rw
            (
              T.keys.find_one-save x.keys (stored_result now command.command_id topic payload)
                  command.command_id,
              eq_refl command.command_id,
            )
            refl),
  )

  Ended-Answered :
      (now : ℕ) (uuid : String) (command : ProcessPaymentCommand) (db db' : Db T)
      → Ended T now uuid command db db'
      → Answered now command db db'
  Ended-Answered now uuid command db db' (inl (w, found, enough, same)) =
      subst (Answered now command db) (sym same) (
        answered-Answered now command db (charged T now uuid command w db)
          KafkaTopic.payment_processed
          (Payload.payment_processed (processed_reply T now command (transaction_id_of uuid))) refl)
  Ended-Answered now uuid command db db' (inr (available, held, short, same)) =
      subst (Answered now command db) (sym same) (
        answered-Answered now command db (with_pending T now command db) KafkaTopic.payment_failed
          (Payload.payment_failed
            (failed_reply T now command (insufficient_funds available command.amount)))
          refl)

  -- Once a payment command was handled, every later delivery of it, at any time, queues the same
  -- reply again and changes nothing else: nobody is charged twice.
  pub handle_process_payment_twice :
      (now : ℕ) (uuid : String) (command : ProcessPaymentCommand) (db db' : Db T)
      → handle_process_payment T now D uuid command db ≡ (ok tt, db')
      → Answered now command db db'
  unfolding handle_process_payment once
  handle_process_payment_twice now uuid command db db' runs =
      elim (Option-cases (T.keys.find_one db.keys command.command_id)) [
        | inr (existing, seen) ↦
            subst (Answered now command db)
              (ap (λ o. o.1)
                (sym (handle_process_payment_seen T D now uuid command db existing seen) ∙ runs))
              (
                existing.reply_topic,
                existing.reply_payload,
                refl,
                λ later uuid'.
                    handle_process_payment_seen T D later uuid' command
                      (write T now command.order_id existing.reply_topic existing.reply_payload db)
                      existing seen,
              )
        | inl unseen ↦
            elim (Option-cases (T.unique_order.insert db.payments (payment_row T now command db))) [
              | inl refused ↦
                  cc (handle_process_payment_clash T D now uuid command db unseen refused, runs)
              | inr (payments, accepted) ↦
                  let (db1, ran, ends) =
                    process_and_answer_ends T now uuid command db payments accepted in
                  subst (Answered now command db)
                    (ap (λ o. o.1)
                      (sym (handle_process_payment_new T D now uuid command db db1 unseen ran)
                        ∙ runs))
                    (Ended-Answered now uuid command db db1 ends)
            ]
      ]
