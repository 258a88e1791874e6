-- ===== src/Payment/SagaController/Replies.antt =====
-- What a payment command leaves behind: wallet, payment row, stored reply and outbox, the first time
-- and when it is delivered again.
use Prim.Native.String.{◌++◌ as ◌++ₛ◌}
use shop_microservices.Prelude.{
  ℕ, ◌-◌, ◌≤◌, ◌<◌, String, Option, none, some, ◌≡◌, ◌⊎◌, inl, inr, refl, sym, subst, Option-cases,
  ◌∙◌, eq_refl, eq_iff,
}
use shop_microservices.Shared.{KafkaTopic}
use shop_microservices.Shared.Messages.{ProcessPaymentCommand, Payload}
use shop_microservices.Exec.{ok, err, DataSource}
use shop_microservices.Outbox
use shop_microservices.Idempotency.{IdempotencyKeyEntity}
use shop_microservices.Payment.Entity.{
  PaymentEntity, PaymentStatus, UserWalletEntity, PaymentError, insufficient_funds, query_failed,
  error_message, Tables, Db,
}
use shop_microservices.Payment.Wallet.{find_wallet}
use shop_microservices.Payment.Wallet.Balance.{Rebalanced, funds}
use shop_microservices.Payment.SagaController.{
  transaction_id_of, pending_payment, complete, write, processed_reply, failed_reply,
  process_and_answer, once, handle_process_payment,
}
use shop_microservices.Payment.SagaController.Outcome.{
  payment_row, with_pending, charged, Ended, process_and_answer_ends, process_and_answer_clashes,
}

module _ (T : Tables) (now : ℕ) where
  -- The row of the payment that a command begins.
  abbrev pub payment_of : ProcessPaymentCommand → Db T → Db T → Option PaymentEntity
  payment_of command db db' = T.payments.find_one db'.payments (T.payments.generate db.payments)

  -- The wallet is charged, the payment is complete, and the reply gives the transaction.
  abbrev pub Paid : String → ProcessPaymentCommand → Db T → Db T → Type 0
  Paid uuid command db db' =
      (w : UserWalletEntity) × (find_wallet T db.wallets command.user_id ≡ some w)
      × (command.amount ≤ w.balance)
      × Rebalanced T now w (w.balance - command.amount) db.wallets db'.wallets
      × (payment_of command db db'
          ≡ some (record {
            id = T.payments.generate db.payments;
            order_id = command.order_id;
            user_id = command.user_id;
            amount = command.amount;
            status = PaymentStatus.completed;
            transaction_id = some ("txn-" ++ₛ uuid);
            failure_reason = none;
            created_at = now;
            updated_at = now;
          }))
      × (db'.outbox
          ≡ Outbox.write T.outbox now command.order_id KafkaTopic.payment_processed command.order_id
              (Payload.payment_processed
                (record { base = command.base; transaction_id = "txn-" ++ₛ uuid }))
              db.outbox)

  -- No wallet is touched and the reply gives the reason, but the payment row stays pending.
  abbrev pub Refused : ProcessPaymentCommand → Db T → Db T → Type 0
  Refused command db db' =
      (available : ℕ) × (available ≡ funds T now (find_wallet T db.wallets command.user_id))
      × (find_wallet T db.wallets command.user_id ≡ none ⊎ (available < command.amount))
      × (db'.wallets ≡ db.wallets)
      × (payment_of command db db'
          ≡ some (record {
            id = T.payments.generate db.payments;
            order_id = command.order_id;
            user_id = command.user_id;
            amount = command.amount;
            status = PaymentStatus.pending;
            transaction_id = none;
            failure_reason = none;
            created_at = now;
            updated_at = now;
          }))
      × (db'.outbox
          ≡ Outbox.write T.outbox now command.order_id KafkaTopic.payment_failed command.order_id
              (Payload.payment_failed (record {
                base = command.base;
                reason = error_message (insufficient_funds available command.amount);
              }))
              db.outbox)

  pending_stored :
      (command : ProcessPaymentCommand) (db : Db T)
      → T.payments.find_one
          (with_pending T now command db).payments
          (T.payments.generate db.payments)
        ≡ some (payment_row T now command db)
  unfolding pending_payment
  pending_stored command db =
      rw
        (
          T.payments.find_one-save db.payments (payment_row T now command db)
              (T.payments.generate db.payments),
          eq_refl (T.payments.generate db.payments),
        )
        refl

  completed_stored :
      (uuid : String) (command : ProcessPaymentCommand) (db : Db T) (w : UserWalletEntity)
      → payment_of command db (charged T now uuid command w db)
        ≡ some (
            complete
              (transaction_id_of uuid)
              now
              (pending_payment (T.payments.generate db.payments) now command))
  unfolding complete pending_payment
  completed_stored uuid command db w =
      T.payments.find_one-update (with_pending T now command db).payments
        (T.payments.generate db.payments) (complete (transaction_id_of uuid) now) (λ r. refl)
        (T.payments.generate db.payments)
      ∙ rw (eq_refl (T.payments.generate db.payments), pending_stored command db) refl

  pub Ended-told :
      (uuid : String) (command : ProcessPaymentCommand) (db db' : Db T)
      → Ended T now uuid command db db'
      → Paid uuid command db db' ⊎ Refused command db db'
  unfolding write processed_reply failed_reply transaction_id_of complete pending_payment
  Ended-told uuid command db db' (inl (w, found, enough, same)) = inl (
      subst (Paid uuid command db) (sym same) (
        w,
        found,
        enough,
        λ k.
            T.wallets.find_one-save db.wallets
              (record w { balance = w.balance - command.amount; updated_at = now }) k,
        completed_stored uuid command db w,
        refl,
      ))
  Ended-told uuid command db db' (inr (available, held, short, same)) = inr (
      subst (Refused command db) (sym same)
        (available, held, short, refl, pending_stored command db, refl))

module _ (T : Tables) (D : DataSource PaymentError (Db T)) where
  pub handle_process_payment_new :
      (now : ℕ) (uuid : String) (command : ProcessPaymentCommand) (db db' : Db T)
      → T.keys.find_one db.keys command.command_id ≡ none
      → process_and_answer T now uuid command db ≡ (ok tt, db')
      → handle_process_payment T now D uuid command db ≡ (ok tt, db')
  unfolding handle_process_payment once
  handle_process_payment_new now uuid command db db' unseen runs =
      rw (handle_process_payment, D.transaction_lem, unseen, once, runs)

  pub handle_process_payment_clash :
      (now : ℕ) (uuid : String) (command : ProcessPaymentCommand) (db : Db T)
      → T.keys.find_one db.keys command.command_id ≡ none
      → T.unique_order.insert db.payments (payment_row T now command db) ≡ none
      → handle_process_payment T now D uuid command db ≡ (err query_failed, db)
  unfolding handle_process_payment once
  handle_process_payment_clash now uuid command db unseen refused = rw (
    handle_process_payment,
    D.transaction_lem,
    unseen,
    once,
    process_and_answer_clashes T now uuid command db refused,
  )

  -- The three ways in which a new command ends.
  abbrev pub EndsNew : ℕ → String → ProcessPaymentCommand → Db T → Type 0
  EndsNew now uuid command db =
      ((db' : Db T) × (handle_process_payment T now D uuid command db ≡ (ok tt, db'))
        × (Paid T now uuid command db db' ⊎ Refused T now command db db'))
      ⊎ ((r : PaymentEntity) × (T.payments.find_one db.payments r.id ≡ some r)
          × (r.order_id ≡ command.order_id)
          × (handle_process_payment T now D uuid command db ≡ (err query_failed, db)))

  -- A payment command that was not answered before ends in one of three ways. The user's wallet
  -- covers the amount: it loses exactly that, every other wallet row stays, the payment row is
  -- completed with the command's data and the reply gives its transaction. The user has no wallet or
  -- one with less than the amount: no wallet changes, the reply gives what the wallet holds and the
  -- amount, and the payment row stays pending. A payment of the order is stored already: the query
  -- fails and the database is as it was.
  pub handle_process_payment_told :
      (now : ℕ) (uuid : String) (command : ProcessPaymentCommand) (db : Db T)
      → T.keys.find_one db.keys command.command_id ≡ none
      → EndsNew now uuid command db
  unfolding handle_process_payment once pending_payment
  handle_process_payment_told now uuid command db unseen =
      elim (Option-cases (T.unique_order.insert db.payments (payment_row T now command db))) [
        | inl refused ↦
            let (r, stored, clashes) =
              T.unique_order.insert_none db.payments (payment_row T now command db) refused in
            inr (
              r,
              stored,
              sym ((eq_iff command.order_id r.order_id).0 clashes),
              rw (
                handle_process_payment,
                D.transaction_lem,
                unseen,
                once,
                process_and_answer_clashes T now uuid command db refused,
              ),
            )
        | inr (payments, accepted) ↦
            let (db', runs, ends) =
              process_and_answer_ends T now uuid command db payments accepted in
            inl (
              db',
              rw (handle_process_payment, D.transaction_lem, unseen, once, runs),
              Ended-told T now uuid command db db' ends,
            )
      ]

  pub handle_process_payment_seen :
      (later : ℕ) (uuid : String) (command : ProcessPaymentCommand) (db : Db T)
      (existing : IdempotencyKeyEntity)
      → T.keys.find_one db.keys command.command_id ≡ some existing
      → handle_process_payment T later D uuid command db
        ≡ (ok tt, write T later command.order_id existing.reply_topic existing.reply_payload db)
  unfolding handle_process_payment once
  handle_process_payment_seen later uuid command db existing seen =
      rw (handle_process_payment, D.transaction_lem, seen, once)
