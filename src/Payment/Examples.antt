-- ===== src/Payment/Examples.antt =====
-- The theorems about wallets and payments on a small database: one user with 100 dollars.
use shop_microservices.Payment.Wallet.{deduct, find_wallet, save_wallet}
use shop_microservices.Prelude.{
  ◌≡◌, refl, [], ◌∷◌, sym, ◌∙◌, Bool-cases, eq_iff, inl, inr, ◌==◌, arith,
}
use shop_microservices.Shared.{Role}
use shop_microservices.User.{includes_admin}
use shop_microservices.Payment.WalletsController.TopUp.{
  OneWalletEach, ToppedUp, top_up_wallet_shown,
}
use shop_microservices.Exec.{ok, DataSource, settled}
use shop_microservices.Repository.Memory.{memory, memory_unique}
use shop_microservices.Repository.Memory.Rows.{find_one, find_where, generate, update}
use shop_microservices.Repository.Memory.Laws.{insert}
use shop_microservices.Shared.Messages.{ProcessPaymentCommand}
use shop_microservices.Idempotency.{IdempotencyKeyEntity, idempotency_key}
use shop_microservices.Outbox.{OutboxEntity, outbox_key}
use shop_microservices.Payment.Entity.{
  PaymentEntity, UserWalletEntity, payment_key, wallet_key, same_order, same_user, PaymentError,
  Tables, Db,
}
use shop_microservices.Payment.Wallet.Opening.{OpensOnce, handle_user_registered_twice}
use shop_microservices.Payment.SagaController.{
  pending_payment, once, process_and_answer, process_payment, insert_payment, complete_payment,
  answer, handle_process_payment,
}
use shop_microservices.Payment.SagaController.Replies.{EndsNew, handle_process_payment_told}
use shop_microservices.Payment.SagaController.Redelivery.{Answered, handle_process_payment_twice}

abbrev pub tables : Tables
tables = record {
  payments = memory PaymentEntity payment_key;
  unique_order = memory_unique PaymentEntity payment_key same_order;
  wallets = memory UserWalletEntity wallet_key;
  unique_user = memory_unique UserWalletEntity wallet_key same_user;
  keys = memory IdempotencyKeyEntity idempotency_key;
  outbox = memory OutboxEntity outbox_key;
}

abbrev pub source : DataSource PaymentError (Db tables)
source = record {
  transaction = λ A callback s. settled s (callback s);
  transaction_lem = λ A callback s. refl;
}

abbrev pub bank : Db tables
bank = record {
  payments = [];
  wallets =
      record { id = "w1"; user_id = "u1"; balance = 10000; created_at = 0; updated_at = 0 } ∷ [];
  keys = [];
  outbox = [];
}

abbrev payment : ProcessPaymentCommand
payment = record {
  base = record { command_id = "s1-pay"; order_id = "o1"; correlation_id = "c1" };
  user_id = "u1";
  amount = 900;
}

handle_process_payment_told_example : EndsNew tables source 9 "7" payment bank
unfolding find_one
handle_process_payment_told_example =
    handle_process_payment_told tables source 9 "7" payment bank refl

paid :
    (handle_process_payment tables 9 source "7" payment bank)
    ≡ (ok tt, (handle_process_payment tables 9 source "7" payment bank).1)
unfolding find_one find_where generate update insert pending_payment handle_process_payment once
    process_and_answer process_payment insert_payment deduct find_wallet save_wallet
    complete_payment answer
paid = refl

handle_process_payment_twice_example :
    Answered tables source 9 payment bank
      (handle_process_payment tables 9 source "7" payment bank).1
handle_process_payment_twice_example =
    handle_process_payment_twice tables source 9 "7" payment bank
      (handle_process_payment tables 9 source "7" payment bank).1 paid

handle_user_registered_twice_example :
    OpensOnce tables source 9 12 1000000 (record { user_id = "u2"; email = "u2@shop.test" }) bank
handle_user_registered_twice_example =
    handle_user_registered_twice tables source 9 12 1000000
      (record { user_id = "u2"; email = "u2@shop.test" }) bank

bank-OneWalletEach : OneWalletEach tables bank.wallets
unfolding find_one
bank-OneWalletEach r r' stored stored' users = elim (Bool-cases ("w1" == r.id)) [
  | inl same ↦ elim (Bool-cases ("w1" == r'.id)) [
    | inl same' ↦ sym ((eq_iff "w1" r.id).0 same) ∙ (eq_iff "w1" r'.id).0 same'
    | inr other ↦ absurd (ground (arith, stored', other))
  ]
  | inr other ↦ absurd (ground (arith, stored, other))
]

top_up_wallet_shown_example : ToppedUp tables source 9 "u1" 500 (Role.user ∷ Role.admin ∷ []) bank
unfolding includes_admin
top_up_wallet_shown_example =
    top_up_wallet_shown tables source 9 "u1" 500 (Role.user ∷ Role.admin ∷ []) bank
      bank-OneWalletEach refl
