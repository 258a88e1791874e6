-- ===== src/Payment/SagaController/Outcome.antt =====
-- The three ways in which a new payment command ends, as equations.
use shop_microservices.Prelude.{ℕ, ◌-◌, ◌≤◌, ◌<◌, String, none, some, ◌≡◌, ◌⊎◌, inl, inr, refl}
use shop_microservices.Shared.{KafkaTopic}
use shop_microservices.Shared.Messages.{ProcessPaymentCommand, Payload}
use shop_microservices.Exec.{ok, err}
use shop_microservices.Idempotency
use shop_microservices.Idempotency.{IdempotencyKeyEntity}
use shop_microservices.Payment.Entity.{
  PaymentEntity, UserWalletEntity, insufficient_funds, query_failed, Tables, Db,
}
use shop_microservices.Payment.Wallet.{find_wallet, save_wallet}
use shop_microservices.Payment.Wallet.Balance.{funds, deduct-cases}
use shop_microservices.Payment.SagaController.{
  transaction_id_of, pending_payment, complete, is_refusal, insert_payment, complete_payment,
  process_payment, write, answer, processed_reply, failed_reply, process_and_answer,
}

module _ (T : Tables) (now : ℕ) where
  abbrev pub payment_row : ProcessPaymentCommand → Db T → PaymentEntity
  payment_row command db = pending_payment (T.payments.generate db.payments) now command

  -- The pending row is in the table.
  abbrev pub with_pending : ProcessPaymentCommand → Db T → Db T
  with_pending command db = record db {
    payments = T.payments.save db.payments (payment_row command db);
  }

  abbrev pub charged : String → ProcessPaymentCommand → UserWalletEntity → Db T → Db T
  charged uuid command w db = record (with_pending command db) {
    wallets =
        T.wallets.save db.wallets
          (record w { balance = w.balance - command.amount; updated_at = now });
    payments =
        T.payments.update (with_pending command db).payments (payment_row command db).id
          (complete (transaction_id_of uuid) now);
  }

  abbrev pub answered : ProcessPaymentCommand → KafkaTopic → Payload → Db T → Db T
  answered command topic payload db =
      write T now command.order_id topic payload
        (record db { keys = Idempotency.save T.keys now command.command_id topic payload db.keys })

  -- A payment was charged, refused for want of money, or not begun since the order has one.
  abbrev pub Ended : String → ProcessPaymentCommand → Db T → Db T → Type 0
  Ended uuid command db db' =
      ((w : UserWalletEntity) × (find_wallet T db.wallets command.user_id ≡ some w)
        × (command.amount ≤ w.balance)
        × (db'
            ≡ answered command KafkaTopic.payment_processed
                (Payload.payment_processed (processed_reply T now command (transaction_id_of uuid)))
                (charged uuid command w db)))
      ⊎ ((available : ℕ) × (available ≡ funds T now (find_wallet T db.wallets command.user_id))
          × (find_wallet T db.wallets command.user_id ≡ none ⊎ (available < command.amount))
          × (db'
              ≡ answered command KafkaTopic.payment_failed
                  (Payload.payment_failed
                    (failed_reply T now command (insufficient_funds available command.amount)))
                  (with_pending command db)))

  pub process_and_answer_ends :
      (uuid : String) (command : ProcessPaymentCommand) (db : Db T) (payments : T.payments.Table)
      → T.unique_order.insert db.payments (payment_row command db) ≡ some payments
      → (db' : Db T) × (process_and_answer T now uuid command db ≡ (ok tt, db'))
        × Ended uuid command db db'
  unfolding process_and_answer process_payment insert_payment
  process_and_answer_ends uuid command db payments accepted =
      elim (deduct-cases T now command.user_id command.amount (with_pending command db)) [
        | inl (w, found, enough, runs) ↦ (
          answered command KafkaTopic.payment_processed
              (Payload.payment_processed (processed_reply T now command (transaction_id_of uuid)))
              (charged uuid command w db),
          rw (
            process_and_answer,
            process_payment,
            insert_payment,
            accepted,
            T.unique_order.insert_some db.payments payments (payment_row command db) accepted,
            runs,
            save_wallet,
            complete_payment,
            answer,
          ),
          inl (w, found, enough, refl),
        )
        | inr (available, held, short, fails) ↦ (
          answered command KafkaTopic.payment_failed
              (Payload.payment_failed
                (failed_reply T now command (insufficient_funds available command.amount)))
              (with_pending command db),
          rw (
            process_and_answer,
            process_payment,
            insert_payment,
            accepted,
            T.unique_order.insert_some db.payments payments (payment_row command db) accepted,
            fails,
            is_refusal,
            answer,
          ),
          inr (available, held, short, refl),
        )
      ]

  pub process_and_answer_clashes :
      (uuid : String) (command : ProcessPaymentCommand) (db : Db T)
      → T.unique_order.insert db.payments (payment_row command db) ≡ none
      → process_and_answer T now uuid command db ≡ (err query_failed, db)
  unfolding process_and_answer process_payment insert_payment
  process_and_answer_clashes uuid command db refused =
      rw (process_and_answer, process_payment, insert_payment, refused, is_refusal)
