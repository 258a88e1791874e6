-- ===== src/Payment/Entity.antt =====
-- payment.entity.ts, user-wallet.entity.ts and payments.errors.ts. Amounts are in cents.
use Prim.Native.String.{◌++◌ as ◌++ₛ◌}
use shop_microservices.Prelude.{ℕ, String, ◌==◌, Bool, Option}
use shop_microservices.Prelude.Decimal.{show_amount}
use shop_microservices.Repository.{Repository, Unique}
use shop_microservices.Idempotency.{IdempotencyRepository}
use shop_microservices.Outbox.{OutboxRepository}

pub data PaymentStatus : Type 0 where
  pending completed failed : PaymentStatus

-- The amount is decimal(10,2) and the balance of a wallet decimal(12,2): the database refuses an
-- amount from 10 ^ 10 cents on and a balance from 10 ^ 12 on. The rows here are not bounded: what
-- is shown of them is about amounts and balances that fit.
pub record PaymentEntity : Type 0 where
  pub id : String
  pub order_id : String
  pub user_id : String
  pub amount : ℕ
  pub status : PaymentStatus
  pub transaction_id : Option String
  pub failure_reason : Option String
  pub created_at : ℕ
  pub updated_at : ℕ

pub record UserWalletEntity : Type 0 where
  pub id : String
  pub user_id : String
  pub balance : ℕ
  pub created_at : ℕ
  pub updated_at : ℕ

-- `query_failed` is an error of the database, such as a violated unique index.
pub data PaymentError : Type 0 where
  payment_declined : String → PaymentError
  -- available, required
  insufficient_funds : ℕ → ℕ → PaymentError
  query_failed : PaymentError

unfoldable pub error_message : PaymentError → String
error_message (payment_declined reason) = reason
error_message (insufficient_funds available required) =
    "Insufficient funds: available "
    ++ₛ (show_amount available ++ₛ (", required " ++ₛ show_amount required))
error_message query_failed = "query failed"

abbrev pub payment_key : PaymentEntity → String
payment_key r = r.id

abbrev pub wallet_key : UserWalletEntity → String
wallet_key r = r.id

-- `orderId` and `userId` are unique columns.
abbrev pub same_order : PaymentEntity → PaymentEntity → Bool
same_order a b = a.order_id == b.order_id

abbrev pub same_user : UserWalletEntity → UserWalletEntity → Bool
same_user a b = a.user_id == b.user_id

-- payments_db
pub record Tables : Type 1 where
  pub payments : Repository PaymentEntity payment_key
  pub unique_order : Unique payments same_order
  pub wallets : Repository UserWalletEntity wallet_key
  pub unique_user : Unique wallets same_user
  pub keys : IdempotencyRepository
  pub outbox : OutboxRepository

pub record Db (T : Tables) : Type 0 where
  pub payments : T.payments.Table
  pub wallets : T.wallets.Table
  pub keys : T.keys.Table
  pub outbox : T.outbox.Table
