-- ===== src/Payment/Wallet/Opening.antt =====
-- The first wallet of a user: it is created once, at registration or at the first top-up.
use shop_microservices.Prelude.{
  ℕ, String, ◌==◌, none, some, ◌≡◌, inl, inr, refl, subst, arith, Option-cases, Bool-cases, eq_refl,
  eq_iff,
}
use shop_microservices.Exec.{ok, DataSource}
use shop_microservices.Payment.Entity.{UserWalletEntity, PaymentError, Tables, Db}
use shop_microservices.Shared.Messages.{UserRegisteredEvent}
use shop_microservices.Payment.Wallet.{
  new_wallet, find_wallet, insert_wallet, find_or_create, handle_user_registered,
}

module _ (T : Tables) where
  abbrev pub fresh_wallet : ℕ → String → ℕ → Db T → UserWalletEntity
  fresh_wallet now user_id balance db =
      new_wallet (T.wallets.generate db.wallets) now user_id balance

  -- Nobody else has taken the unique user id, so the insert goes through.
  pub insert_wallet_lem :
      (now : ℕ) (user_id : String) (balance : ℕ) (db : Db T)
      → find_wallet T db.wallets user_id ≡ none
      → insert_wallet T now user_id balance db ≡ (
        ok (fresh_wallet now user_id balance db),
        record db { wallets = T.wallets.save db.wallets (fresh_wallet now user_id balance db) },
      )
  unfolding insert_wallet find_wallet
  insert_wallet_lem now user_id balance db gone =
      elim (Option-cases (T.unique_user.insert db.wallets (fresh_wallet now user_id balance db))) [
        | inl refused ↦
            let (r, stored, clashes) =
              T.unique_user.insert_none db.wallets (fresh_wallet now user_id balance db) refused in
            ground (
              arith,
              clashes,
              T.wallets.find_where_complete db.wallets (λ w. w.user_id == user_id) r.id r gone
                  stored,
              eq_iff user_id r.user_id,
              eq_iff r.user_id user_id,
            )
        | inr (t, accepted) ↦ rw (
          insert_wallet,
          accepted,
          T.unique_user.insert_some db.wallets t (fresh_wallet now user_id balance db) accepted,
        )
      ]

  -- A wallet row of the user is found, and nothing that was there before has changed.
  abbrev pub Opened : String → Db T → Db T → Type 0
  Opened user_id db db' =
      ((w : UserWalletEntity) × (find_wallet T db'.wallets user_id ≡ some w))
      × ((k : String) (w : UserWalletEntity)
          → T.wallets.find_one db.wallets k ≡ some w
          → T.wallets.find_one db'.wallets k ≡ some w)

  fresh_wallet-found :
      (now : ℕ) (user_id : String) (balance : ℕ) (db : Db T)
      → (w : UserWalletEntity) × (find_wallet T
            (T.wallets.save db.wallets (fresh_wallet now user_id balance db))
            user_id
          ≡ some w)
  unfolding find_wallet new_wallet
  fresh_wallet-found now user_id balance db =
      elim (Option-cases
        (find_wallet T (T.wallets.save db.wallets (fresh_wallet now user_id balance db)) user_id)) [
          | inr found ↦ found
          | inl gone ↦ ground (
            arith,
            eq_refl user_id,
            eq_refl (T.wallets.generate db.wallets),
            T.wallets.find_where_complete
                (T.wallets.save db.wallets (fresh_wallet now user_id balance db))
                (λ w. w.user_id == user_id) (T.wallets.generate db.wallets)
                (fresh_wallet now user_id balance db) gone
                (rw
                  (
                    T.wallets.find_one-save db.wallets (fresh_wallet now user_id balance db)
                        (T.wallets.generate db.wallets),
                    eq_refl (T.wallets.generate db.wallets),
                  )
                  refl),
          )
        ]

  fresh_wallet-keeps :
      (now : ℕ) (user_id : String) (balance : ℕ) (db : Db T) (k : String) (w : UserWalletEntity)
      → T.wallets.find_one db.wallets k ≡ some w
      → T.wallets.find_one (T.wallets.save db.wallets (fresh_wallet now user_id balance db)) k
        ≡ some w
  unfolding new_wallet
  fresh_wallet-keeps now user_id balance db k w stored =
      elim (Bool-cases (T.wallets.generate db.wallets == k)) [
        | inl same ↦ cc (
          stored,
          subst (λ i. T.wallets.find_one db.wallets i ≡ none)
              ((eq_iff (T.wallets.generate db.wallets) k).0 same)
              (T.wallets.find_one-generate db.wallets),
        )
        | inr other ↦
            rw (T.wallets.find_one-save db.wallets (fresh_wallet now user_id balance db) k, other)
              stored
      ]

  find_or_create_opens :
      (now : ℕ) (user_id : String) (balance : ℕ) (db : Db T)
      → (w : UserWalletEntity) × (db' : Db T) × (find_or_create T now user_id balance db
          ≡ (ok w, db'))
        × Opened user_id db db'
  unfolding find_or_create
  find_or_create_opens now user_id balance db =
      elim (Option-cases (find_wallet T db.wallets user_id)) [
        | inr (w, found) ↦ (w, db, rw (find_or_create, found), ((w, found), λ k v h. h))
        | inl gone ↦ (
          fresh_wallet now user_id balance db,
          record db { wallets = T.wallets.save db.wallets (fresh_wallet now user_id balance db) },
          rw (find_or_create, gone, insert_wallet_lem now user_id balance db gone),
          (fresh_wallet-found now user_id balance db, fresh_wallet-keeps now user_id balance db),
        )
      ]

module _ (T : Tables) (D : DataSource PaymentError (Db T)) where
  handle_user_registered_lem :
      (now initial_balance : ℕ) (event : UserRegisteredEvent) (db : Db T) (w : UserWalletEntity)
      (db' : Db T)
      → find_or_create T now event.user_id initial_balance db ≡ (ok w, db')
      → handle_user_registered T D now initial_balance event db ≡ (ok tt, db')
  unfolding handle_user_registered
  handle_user_registered_lem now initial_balance event db w db' runs =
      rw (handle_user_registered, D.transaction_lem, runs)

  find_or_create_found :
      (now : ℕ) (user_id : String) (balance : ℕ) (db : Db T) (w : UserWalletEntity)
      → find_wallet T db.wallets user_id ≡ some w
      → find_or_create T now user_id balance db ≡ (ok w, db)
  unfolding find_or_create
  find_or_create_found now user_id balance db w found = rw (find_or_create, found)

  -- The first delivery opens the wallet and the second changes nothing.
  abbrev pub OpensOnce : ℕ → ℕ → ℕ → UserRegisteredEvent → Db T → Type 0
  OpensOnce now later initial_balance event db =
      (db' : Db T) × (handle_user_registered T D now initial_balance event db ≡ (ok tt, db'))
      × (handle_user_registered T D later initial_balance event db' ≡ (ok tt, db'))
      × ((w : UserWalletEntity) × (find_wallet T db'.wallets event.user_id ≡ some w))
      × ((k : String) (w : UserWalletEntity)
          → T.wallets.find_one db.wallets k ≡ some w
          → T.wallets.find_one db'.wallets k ≡ some w)

  -- A user-registered event always leaves the user with a wallet and every earlier wallet row as it
  -- was, and when it is delivered again it changes nothing.
  pub handle_user_registered_twice :
      (now later initial_balance : ℕ) (event : UserRegisteredEvent) (db : Db T)
      → OpensOnce now later initial_balance event db
  handle_user_registered_twice now later initial_balance event db =
      let (w, db', runs, (opened, kept)) =
        find_or_create_opens T now event.user_id initial_balance db in
      let (v, found) = opened in
      (
        db',
        handle_user_registered_lem now initial_balance event db w db' runs,
        handle_user_registered_lem later initial_balance event db' v db'
            (find_or_create_found later event.user_id initial_balance db' v found),
        opened,
        kept,
      )
