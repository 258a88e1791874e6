-- ===== src/Payment/SagaController.antt =====
-- payments.service.ts and payments-saga.controller.ts.
pub mod Outcome
pub mod Replies
pub mod Redelivery
use Prim.Native.String.{◌++◌ as ◌++ₛ◌}
use shop_microservices.Prelude.{ℕ, String, Bool, true, false, Option, none, some, if◌then◌else◌}
use shop_microservices.Shared.{KafkaTopic}
use shop_microservices.Shared.Messages.{
  BaseCommand, ProcessPaymentCommand, PaymentProcessedEvent, PaymentFailedEvent, Payload,
}
use shop_microservices.Exec.{DataSource, gets, pure, throw, try_catch, modify, ◌>>=◌, ◌>>◌}
use shop_microservices.Outbox
use shop_microservices.Idempotency
use shop_microservices.Idempotency.{IdempotencyKeyEntity}
use shop_microservices.Payment.Entity.{
  PaymentEntity, PaymentStatus, PaymentError, payment_declined, insufficient_funds, query_failed,
  error_message, Tables, Db,
}
use shop_microservices.Payment.Wallet.{Action, deduct}

-- `txn-${randomUUID()}`, with the uuid drawn as a parameter
unfoldable pub transaction_id_of : String → String
transaction_id_of uuid = "txn-" ++ₛ uuid

-- `repo.create({ orderId, userId, amount, status: PENDING })`
unfoldable pub pending_payment : String → ℕ → ProcessPaymentCommand → PaymentEntity
pending_payment id now input = record {
  id = id;
  order_id = input.order_id;
  user_id = input.user_id;
  amount = input.amount;
  status = PaymentStatus.pending;
  transaction_id = none;
  failure_reason = none;
  created_at = now;
  updated_at = now;
}

unfoldable pub complete : String → ℕ → PaymentEntity → PaymentEntity
complete transaction_id now p = record p {
  status = PaymentStatus.completed;
  transaction_id = some transaction_id;
  updated_at = now;
}

-- `e instanceof PaymentDeclinedError || e instanceof InsufficientFundsError`
unfoldable pub is_refusal : PaymentError → Bool
is_refusal (payment_declined reason) = true
is_refusal (insufficient_funds available required) = true
is_refusal query_failed = false

module _ (T : Tables) (now : ℕ) where
  unfoldable pub insert_payment : ProcessPaymentCommand → Action T PaymentEntity
  unfolding pending_payment
  insert_payment input db =
      let row = pending_payment (T.payments.generate db.payments) now input in
      elim (T.unique_order.insert db.payments row) [
        | none ↦ throw query_failed db
        | some payments ↦ pure row (record db { payments = payments })
      ]

  unfoldable pub complete_payment : String → String → Action T (Unit {0})
  unfolding complete
  complete_payment id transaction_id =
      modify λ db. record db {
        payments = T.payments.update db.payments id (complete transaction_id now);
      }

  -- `processPayment`
  unfoldable pub process_payment : String → ProcessPaymentCommand → Action T String
  unfolding insert_payment deduct transaction_id_of complete_payment
  process_payment uuid input = insert_payment input >>= λ payment.
      deduct T now input.user_id input.amount >>= λ wallet.
      complete_payment payment.id (transaction_id_of uuid) >> pure (transaction_id_of uuid)

  unfoldable pub write : String → KafkaTopic → Payload → Db T → Db T
  unfolding Outbox.write
  write order_id topic payload db = record db {
    outbox = Outbox.write T.outbox now order_id topic order_id payload db.outbox;
  }

  unfoldable pub answer : BaseCommand → KafkaTopic → Payload → Action T (Unit {0})
  unfolding write
  answer command topic payload = modify λ db.
      write command.order_id topic payload
        (record db { keys = Idempotency.save T.keys now command.command_id topic payload db.keys })

  unfoldable pub processed_reply : ProcessPaymentCommand → String → PaymentProcessedEvent
  processed_reply command transaction_id = record {
    base = command.base;
    transaction_id = transaction_id;
  }

  unfoldable pub failed_reply : ProcessPaymentCommand → PaymentError → PaymentFailedEvent
  unfolding error_message
  failed_reply command e = record { base = command.base; reason = error_message e }

  unfoldable pub process_and_answer : String → ProcessPaymentCommand → Action T (Unit {0})
  unfolding process_payment answer processed_reply failed_reply is_refusal
  process_and_answer uuid command =
      try_catch
        (process_payment uuid command >>= λ transaction_id.
          answer command.base KafkaTopic.payment_processed
            (Payload.payment_processed (processed_reply command transaction_id)))
        (λ e.
          if is_refusal e
          then answer command.base KafkaTopic.payment_failed
              (Payload.payment_failed (failed_reply command e))
          else throw e)

  unfoldable pub once :
      ProcessPaymentCommand
      → Action T (Unit {0})
      → Option IdempotencyKeyEntity
      → Action T (Unit {0})
  unfolding write
  once command body none = body
  once command body (some existing) =
      modify (write command.order_id existing.reply_topic existing.reply_payload)

  -- `handleProcessPayment`
  unfoldable pub handle_process_payment :
      DataSource PaymentError (Db T) → String → ProcessPaymentCommand → Action T (Unit {0})
  unfolding once process_and_answer
  handle_process_payment D uuid command = D.transaction (Unit {0}) (
      gets (λ db. Idempotency.find T.keys db.keys command.command_id)
      >>= once command (process_and_answer uuid command))
