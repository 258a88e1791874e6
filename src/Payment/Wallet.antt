-- ===== src/Payment/Wallet.antt =====
-- wallet.service.ts and wallet-events.consumer.ts.
pub mod Balance
pub mod Opening
use shop_microservices.Prelude.{
  ℕ, ◌+◌, ◌-◌, String, ◌==◌, Bool, Option, none, some, if◌then◌else◌, ltb,
}
use shop_microservices.Exec.{Exec, DataSource, pure, throw, ◌>>=◌}
use shop_microservices.Payment.Entity.{
  UserWalletEntity, PaymentError, insufficient_funds, query_failed, Tables, Db,
}
use shop_microservices.Shared.Messages.{UserRegisteredEvent}

unfoldable pub new_wallet : String → ℕ → String → ℕ → UserWalletEntity
new_wallet id now user_id balance = record {
  id = id;
  user_id = user_id;
  balance = balance;
  created_at = now;
  updated_at = now;
}

module _ (T : Tables) where
  abbrev pub Action : Type 0 → Type 0
  Action A = Exec PaymentError (Db T) A

  -- `where('w.userId = :userId')`
  unfoldable pub find_wallet : T.wallets.Table → String → Option UserWalletEntity
  find_wallet t user_id = T.wallets.find_where t (λ w. w.user_id == user_id)

  -- `repo.save(repo.create({ userId, balance }))`
  unfoldable pub insert_wallet : ℕ → String → ℕ → Action UserWalletEntity
  unfolding new_wallet
  insert_wallet now user_id balance db =
      let row = new_wallet (T.wallets.generate db.wallets) now user_id balance in
      elim (T.unique_user.insert db.wallets row) [
        | none ↦ throw query_failed db
        | some wallets ↦ pure row (record db { wallets = wallets })
      ]

  -- `repo.save(wallet)` of a row with a new balance
  unfoldable pub save_wallet : ℕ → UserWalletEntity → Action UserWalletEntity
  save_wallet now wallet db =
      let row = record wallet { updated_at = now } in
      pure row (record db { wallets = T.wallets.save db.wallets row })

  unfoldable pub find_or_create : ℕ → String → ℕ → Action UserWalletEntity
  unfolding find_wallet insert_wallet
  find_or_create now user_id initial_balance db = elim (find_wallet db.wallets user_id) [
    | some existing ↦ pure existing db
    | none ↦ insert_wallet now user_id initial_balance db
  ]

  unfoldable pub get_balance : String → Action (Option UserWalletEntity)
  unfolding find_wallet
  get_balance user_id db = pure (find_wallet db.wallets user_id) db

  unfoldable pub deduct : ℕ → String → ℕ → Action UserWalletEntity
  unfolding find_wallet save_wallet
  deduct now user_id amount db = elim (find_wallet db.wallets user_id) [
    | none ↦ throw (insufficient_funds 0 amount) db
    | some wallet ↦
        if ltb wallet.balance amount
        then throw (insufficient_funds wallet.balance amount) db
        else save_wallet now (record wallet { balance = wallet.balance - amount }) db
  ]

  unfoldable pub top_up : ℕ → String → ℕ → Action UserWalletEntity
  unfolding find_wallet insert_wallet save_wallet
  top_up now user_id amount db = elim (find_wallet db.wallets user_id) [
    | none ↦ insert_wallet now user_id amount db
    | some wallet ↦ save_wallet now (record wallet { balance = wallet.balance + amount }) db
  ]

  -- `handleUserRegistered`
  unfoldable pub handle_user_registered :
      DataSource PaymentError (Db T) → ℕ → ℕ → UserRegisteredEvent → Action (Unit {0})
  unfolding find_or_create
  handle_user_registered D now initial_balance event =
      D.transaction (Unit {0})
        (find_or_create now event.user_id initial_balance >>= λ wallet. pure tt)
