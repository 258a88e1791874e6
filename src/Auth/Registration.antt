-- ===== src/Auth/Registration.antt =====
-- Registration: one user for each email, with the event that opens profile and wallet.
use shop_microservices.Prelude.{
  ℕ, String, ◌≡◌, ◌⊎◌, inl, inr, refl, sym, none, some, eq_refl, Option-cases, eq_iff,
}
use shop_microservices.Exec.{err, DataSource}
use shop_microservices.Shared.{KafkaTopic}
use shop_microservices.Shared.Messages.{Payload}
use shop_microservices.Outbox
use shop_microservices.Auth.{
  UserEntity, RegisterInput, AuthError, email_already_taken, Crypto, Tables, Db, new_user,
  insert_user, issue_tokens, register, taken,
}

module _ (T : Tables) (K : Crypto) (D : DataSource AuthError (Db T)) where
  -- A new user is stored with the event in the outbox, and then gets tokens.
  abbrev pub Stored : ℕ → String → String → RegisterInput → Db T → Type 0
  Stored now jti salt input db =
      (user : UserEntity) × (db' : Db T) × (user.email ≡ input.email)
      × (user.password_hash ≡ K.hash_password salt input.password)
      × (T.users.find_one db.users user.id ≡ none)
      × (T.users.find_one db'.users user.id ≡ some user)
      × (db'.outbox
          ≡ Outbox.write T.outbox now user.id KafkaTopic.user_registered user.id
              (Payload.user_registered (record { user_id = user.id; email = input.email }))
              db.outbox)
      × (register T K D now jti salt input db ≡ issue_tokens T K now jti user db')

  -- The email belongs to a user already, and nothing changes.
  abbrev pub Taken : ℕ → String → String → RegisterInput → Db T → Type 0
  Taken now jti salt input db =
      (user : UserEntity) × (T.users.find_one db.users user.id ≡ some user)
      × (user.email ≡ input.email)
      × (register T K D now jti salt input db ≡ (err email_already_taken, db))

  -- A registration either finds the email taken by a stored user, reports that and changes
  -- nothing, or stores one new user with the salted hash of the password under a fresh id, with
  -- the user-registered event in the outbox, and goes on to issue tokens for that user.
  pub register_cases :
      (now : ℕ) (jti salt : String) (input : RegisterInput) (db : Db T)
      → Stored now jti salt input db ⊎ Taken now jti salt input db
  unfolding register insert_user new_user taken
  register_cases now jti salt input db =
      let row =
        new_user (T.users.generate db.users) now input.email
          (K.hash_password salt input.password) in
      elim (Option-cases (T.unique_email.insert db.users row)) [
        | inl refused ↦
            let (user, stored, clash) = T.unique_email.insert_none db.users row refused in
            inr (
              user,
              stored,
              sym ((eq_iff input.email user.email).0 clash),
              rw (register, D.transaction_lem, insert_user, refused, taken),
            )
        | inr (users, accepted) ↦ inl (
          row,
          record {
            users = T.users.save db.users row;
            outbox =
                Outbox.write T.outbox now row.id KafkaTopic.user_registered row.id
                  (Payload.user_registered (record { user_id = row.id; email = input.email }))
                  db.outbox;
          },
          refl,
          refl,
          T.users.find_one-generate db.users,
          rw
              (
                T.users.find_one-save db.users row (T.users.generate db.users),
                eq_refl (T.users.generate db.users),
              )
              refl,
          refl,
          rw (
            register,
            D.transaction_lem,
            insert_user,
            accepted,
            T.unique_email.insert_some db.users users row accepted,
          ),
        )
      ]
