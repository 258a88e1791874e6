-- ===== src/Payment/WalletsController/TopUp.antt =====
-- A top-up by an administrator, and what the owner of the wallet sees afterwards.
use shop_microservices.Prelude.{
  ℕ, ◌+◌, String, ◌==◌, none, some, ◌≡◌, inl, inr, refl, sym, ◌∙◌, ap, subst, true, List, arith,
  Option-cases, Bool-cases, eq_refl, eq_iff,
}
use shop_microservices.Exec.{ok, DataSource}
use shop_microservices.Shared.{Role}
use shop_microservices.Shared.Roles.{join_roles}
use shop_microservices.Shared.Roles.Laws.{parse_roles-join_roles}
use shop_microservices.User.{includes_admin}
use shop_microservices.Payment.Entity.{UserWalletEntity, PaymentError, Tables, Db}
use shop_microservices.Payment.Wallet.{find_wallet, get_balance, top_up, new_wallet, save_wallet}
use shop_microservices.Payment.Wallet.Opening.{fresh_wallet, insert_wallet_lem}
use shop_microservices.Payment.WalletsController.{
  WalletResult, wallet_result, found_wallet, get_wallet, top_up_wallet,
}

module _ (T : Tables) where
  -- The unique index on the user id: two stored rows of one user are the same row.
  abbrev pub OneWalletEach : T.wallets.Table → Type 0
  OneWalletEach t =
      (r r' : UserWalletEntity)
      → T.wallets.find_one t r.id ≡ some r
      → T.wallets.find_one t r'.id ≡ some r'
      → r.user_id ≡ r'.user_id
      → r.id ≡ r'.id

  -- A row that may be saved: every stored row of its user has its id.
  abbrev Replaces : T.wallets.Table → UserWalletEntity → Type 0
  Replaces t row =
      (r : UserWalletEntity)
      → T.wallets.find_one t r.id ≡ some r
      → r.user_id ≡ row.user_id
      → r.id ≡ row.id

  find_wallet-stored :
      (t : T.wallets.Table) (r : UserWalletEntity)
      → OneWalletEach t
      → T.wallets.find_one t r.id ≡ some r
      → find_wallet T t r.user_id ≡ some r
  unfolding find_wallet
  find_wallet-stored t r each stored = elim (Option-cases (find_wallet T t r.user_id)) [
    | inl gone ↦ absurd (
        cc (
          T.wallets.find_where_complete t (λ w. w.user_id == r.user_id) r.id r gone stored,
          eq_refl r.user_id,
        ))
    | inr (r', found) ↦
        let (same, stored') = T.wallets.find_where_sound t (λ w. w.user_id == r.user_id) r' found in
        let ids = each r' r stored' stored ((eq_iff r'.user_id r.user_id).0 same) in
        found ∙ sym stored' ∙ ap (T.wallets.find_one t) ids ∙ stored
  ]

  find_one-saved :
      (t : T.wallets.Table) (row : UserWalletEntity)
      → T.wallets.find_one (T.wallets.save t row) row.id ≡ some row
  find_one-saved t row = rw (T.wallets.find_one-save t row row.id, eq_refl row.id)

  -- A row of the table after a save is the saved one or an old one.
  save_id :
      (t : T.wallets.Table) (row r : UserWalletEntity)
      → Replaces t row
      → T.wallets.find_one (T.wallets.save t row) r.id ≡ some r
      → r.user_id ≡ row.user_id
      → r.id ≡ row.id
  save_id t row r replaces stored users = elim (Bool-cases (row.id == r.id)) [
    | inl same ↦ sym ((eq_iff row.id r.id).0 same)
    | inr other ↦ replaces r (cc (stored, T.wallets.find_one-save t row r.id, other)) users
  ]

  save_user :
      (t : T.wallets.Table) (row r : UserWalletEntity)
      → T.wallets.find_one (T.wallets.save t row) r.id ≡ some r
      → row.id == r.id ≡ true
      → r.user_id ≡ row.user_id
  save_user t row r stored same =
      let it : some r ≡ some row = cc (stored, T.wallets.find_one-save t row r.id, same) in cc it

  OneWalletEach-save :
      (t : T.wallets.Table) (row : UserWalletEntity)
      → OneWalletEach t
      → Replaces t row
      → OneWalletEach (T.wallets.save t row)
  OneWalletEach-save t row each replaces r r' stored stored' users =
      elim (Bool-cases (row.id == r.id)) [
        | inl same ↦
            let user = save_user t row r stored same in
            sym ((eq_iff row.id r.id).0 same)
            ∙ sym (save_id t row r' replaces stored' (sym users ∙ user))
        | inr other ↦ elim (Bool-cases (row.id == r'.id)) [
          | inl same ↦
              let user = save_user t row r' stored' same in
              save_id t row r replaces stored (users ∙ user) ∙ (eq_iff row.id r'.id).0 same
          | inr other' ↦
              each r r' (cc (stored, T.wallets.find_one-save t row r.id, other))
                (cc (stored', T.wallets.find_one-save t row r'.id, other')) users
        ]
      ]

  -- What a user owns: nothing without a wallet.
  abbrev pub balance_of : Db T → String → ℕ
  balance_of db user_id = elim (find_wallet T db.wallets user_id) [
    | none ↦ 0
    | some wallet ↦ wallet.balance
  ]

  -- A top-up saves a row of the user that holds the sum.
  top_up_saves :
      (now : ℕ) (user_id : String) (amount : ℕ) (db : Db T)
      → OneWalletEach db.wallets
      → (row : UserWalletEntity) × (row.user_id ≡ user_id)
        × (row.balance ≡ balance_of db user_id + amount)
        × Replaces db.wallets row
        × (top_up T now user_id amount db
            ≡ (ok row, record db { wallets = T.wallets.save db.wallets row }))
  unfolding top_up find_wallet save_wallet new_wallet
  top_up_saves now user_id amount db each = elim (Option-cases (find_wallet T db.wallets user_id)) [
    | inl gone ↦ (
      fresh_wallet T now user_id amount db,
      refl,
      rw (balance_of, gone) (omega arith),
      λ r stored users. absurd (
          cc (
            T.wallets.find_where_complete db.wallets (λ w. w.user_id == user_id) r.id r gone stored,
            (eq_iff r.user_id user_id).1 users,
          )),
      rw (top_up, gone, insert_wallet_lem T now user_id amount db gone),
    )
    | inr (w, found) ↦
        let (same, stored) =
          T.wallets.find_where_sound db.wallets (λ w. w.user_id == user_id) w found in
        let user = (eq_iff w.user_id user_id).0 same in
        (
          record w { balance = w.balance + amount; updated_at = now },
          user,
          rw (balance_of, found),
          λ r stored' users. each r w stored' stored users,
          rw (top_up, found),
        )
  ]

module _ (T : Tables) (D : DataSource PaymentError (Db T)) where
  get_wallet_own :
      (user_id : String) (db : Db T) (w : UserWalletEntity)
      → find_wallet T db.wallets user_id ≡ some w
      → get_wallet T D user_id (some user_id) none db ≡ (ok (wallet_result w), db)
  unfolding get_wallet get_balance found_wallet
  get_wallet_own user_id db w found =
      rw (get_wallet, eq_refl user_id, D.transaction_lem, get_balance, found)

  wallet_result_lem :
      (w : UserWalletEntity) (user_id : String) (balance : ℕ)
      → w.user_id ≡ user_id
      → w.balance ≡ balance
      → wallet_result w ≡ record { user_id = user_id; balance = balance }
  unfolding wallet_result
  wallet_result_lem w user_id balance user sum = rw (wallet_result, user, sum)

  -- The answer to the administrator holds the sum, its owner sees it at once without changing
  -- anything, and every user still has one wallet.
  abbrev pub ToppedUp : ℕ → String → ℕ → List Role → Db T → Type 0
  ToppedUp now user_id amount roles db =
      let after = top_up_wallet T D now user_id amount (some (join_roles roles)) db in
      let shown : WalletResult = record {
        user_id = user_id;
        balance = balance_of T db user_id + amount;
      } in
      (after.0 ≡ ok shown)
      × (get_wallet T D user_id (some user_id) none after.1 ≡ (ok shown, after.1))
      × OneWalletEach T after.1.wallets

  -- An administrator, as the gateway names the roles, tops up a wallet, or opens one: the answer
  -- holds what the user had (nothing without a wallet) plus the amount; the owner asks for the
  -- wallet next and sees that sum; every user still has one wallet. It asks that the users had one
  -- wallet each before.
  pub top_up_wallet_shown :
      (now : ℕ) (user_id : String) (amount : ℕ) (roles : List Role) (db : Db T)
      → OneWalletEach T db.wallets
      → includes_admin roles ≡ true
      → ToppedUp now user_id amount roles db
  unfolding top_up_wallet get_wallet get_balance found_wallet wallet_result
  top_up_wallet_shown now user_id amount roles db each admin =
      let (row, user, sum, replaces, runs) = top_up_saves T now user_id amount db each in
      let t = T.wallets.save db.wallets row in
      let each' = OneWalletEach-save T db.wallets row each replaces in
      let found : find_wallet T t user_id ≡ some row =
        subst (λ u. find_wallet T t u ≡ some row) user
          (find_wallet-stored T t row each' (find_one-saved T db.wallets row)) in
      let shown : wallet_result row
          ≡ record { user_id = user_id; balance = balance_of T db user_id + amount } =
        wallet_result_lem row user_id (balance_of T db user_id + amount) user sum in
      let ran : top_up_wallet T D now user_id amount (some (join_roles roles)) db
          ≡ (ok (wallet_result row), record db { wallets = t }) =
        rw (top_up_wallet, parse_roles-join_roles, admin, D.transaction_lem, runs) in
      rw (ran, shown)
        (
          refl,
          get_wallet_own user_id (record db { wallets = t }) row found
              ∙ ap (λ w. (ok w, record db { wallets = t })) shown,
          each',
        )
