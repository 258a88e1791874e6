-- ===== src/Payment/Wallet/Balance.antt =====
-- What deducting does to the wallets.
use shop_microservices.Prelude.{
  ℕ, ◌-◌, ◌≤◌, ◌<◌, String, ◌==◌, Option, none, some, refl, if◌then◌else◌, ltb, ◌≡◌, ◌⊎◌, inl, inr,
  arith, Option-cases, Bool-cases,
}
use shop_microservices.Exec.{err}
use shop_microservices.Payment.Entity.{UserWalletEntity, insufficient_funds, Tables, Db}
use shop_microservices.Payment.Wallet.{find_wallet, save_wallet, deduct}

module _ (T : Tables) (now : ℕ) where
  -- One wallet has a new balance, and every other row is as it was.
  abbrev pub Rebalanced : UserWalletEntity → ℕ → T.wallets.Table → T.wallets.Table → Type 0
  Rebalanced w balance t t' =
      (k : String)
      → T.wallets.find_one t' k ≡ (
          if w.id == k
          then some (record w { balance = balance; updated_at = now })
          else T.wallets.find_one t k)

  -- What a user's wallet holds: nothing where there is none.
  abbrev pub funds : Option UserWalletEntity → ℕ
  funds none = 0
  funds (some w) = w.balance

  pub deduct-cases :
      (user_id : String) (amount : ℕ) (db : Db T)
      → ((w : UserWalletEntity) × (find_wallet T db.wallets user_id ≡ some w)
          × (amount ≤ w.balance)
          × (deduct T now user_id amount db
              ≡ save_wallet T now (record w { balance = w.balance - amount }) db))
        ⊎ ((available : ℕ) × (available ≡ funds (find_wallet T db.wallets user_id))
            × (find_wallet T db.wallets user_id ≡ none ⊎ (available < amount))
            × (deduct T now user_id amount db ≡ (err (insufficient_funds available amount), db)))
  unfolding deduct
  deduct-cases user_id amount db = elim (Option-cases (find_wallet T db.wallets user_id)) [
    | inl gone ↦ inr (0, rw gone refl, inl gone, rw (deduct, gone))
    | inr (w, found) ↦ elim (Bool-cases (ltb w.balance amount)) [
      | inl short ↦
          inr (w.balance, rw found refl, inr (ground (arith, short)), rw (deduct, found, short))
      | inr enough ↦ inl (w, found, ground (arith, enough), rw (deduct, found, enough))
    ]
  ]

  pub save_wallet-Rebalanced :
      (w : UserWalletEntity) (balance : ℕ) (db : Db T)
      → Rebalanced w balance db.wallets
          (save_wallet T now (record w { balance = balance }) db).1.wallets
  unfolding save_wallet
  save_wallet-Rebalanced w balance db k =
      T.wallets.find_one-save db.wallets (record w { balance = balance; updated_at = now }) k
