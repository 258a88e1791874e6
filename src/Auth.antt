-- ===== src/Auth.antt =====
-- services/auth-service: auth.service.ts with user.entity.ts, auth.inputs.ts, auth.outputs.ts and
-- auth.errors.ts. Bcrypt, SHA-256 and the JWT library are parameters, and so are the time, the
-- random token id and the random salt of a call.
pub mod Tokens
pub mod Rotation
pub mod Registration
pub mod Controller
mod Examples
use shop_microservices.Prelude.{
  ℕ, ◌+◌, ◌*◌, ◌/◌, ◌<◌, String, ◌==◌, ◌≡◌, Bool, true, false, ◌&&◌, not, Option, none, some, List,
  [], ◌∷◌, if◌then◌else◌,
}
use shop_microservices.Exec.{Exec, DataSource, ok, err, pure, throw, modify, try_catch, ◌>>=◌, ◌>>◌}
use shop_microservices.Repository.{Repository, Unique}
use shop_microservices.Shared.{Role, KafkaTopic}
use shop_microservices.Shared.Messages.{UserRegisteredEvent, Payload}
use shop_microservices.Outbox
use shop_microservices.Outbox.{OutboxRepository}

pub record UserEntity : Type 0 where
  pub id : String
  pub email : String
  pub password_hash : String
  pub roles : List Role
  pub refresh_token : Option String
  pub is_active : Bool
  pub created_at : ℕ
  pub updated_at : ℕ

-- The claims that the service signs.
pub record JwtPayload : Type 0 where
  pub sub : String
  pub email : String
  pub roles : List Role
  pub jti : String

pub record RegisterInput : Type 0 where
  pub email : String
  pub password : String

pub record LoginInput : Type 0 where
  pub email : String
  pub password : String

pub record TokensResult : Type 0 where
  pub access_token : String
  pub refresh_token : String
  pub expires_in : ℕ
  pub user_id : String
  pub email : String

-- The last two are errors of the database and of the JWT library.
pub data AuthError : Type 0 where
  email_already_taken invalid_credentials invalid_refresh_token refresh_token_revoked : AuthError
  unique_violation sign_failed : AuthError

-- Bcrypt, SHA-256 and the two JWT secrets with their lifetimes in seconds.
pub record Crypto : Type 0 where
  -- Bcrypt hashes a password with a salt, which it draws at random for each call.
  pub hash_password : String → String → String
  pub compare_password : String → String → Bool
  pub hash_token : String → String
  pub access_expires_in : ℕ
  pub refresh_expires_in : ℕ
  pub sign_access : ℕ → JwtPayload → Option String
  pub sign_refresh : ℕ → JwtPayload → Option String
  pub verify_refresh : ℕ → String → Option JwtPayload
  -- A token is accepted with its claims until it expires. `iat` and `exp` are whole seconds, and
  -- so is the time that `exp` is compared with: the library drops the rest of the milliseconds.
  pub verify_refresh-sign_refresh :
      (now later : ℕ) (payload : JwtPayload) (token : String)
      → sign_refresh now payload ≡ some token
      → later / 1000 < now / 1000 + refresh_expires_in
      → verify_refresh later token ≡ some payload
  -- The claims in a token do not depend on the time at which it is read.
  pub verify_refresh_same :
      (now later : ℕ) (token : String) (payload payload' : JwtPayload)
      → verify_refresh now token ≡ some payload
      → verify_refresh later token ≡ some payload'
      → payload' ≡ payload

abbrev pub user_key : UserEntity → String
user_key r = r.id

abbrev pub same_email : UserEntity → UserEntity → Bool
same_email a b = a.email == b.email

pub record Tables : Type 1 where
  pub users : Repository UserEntity user_key
  pub unique_email : Unique users same_email
  pub outbox : OutboxRepository

pub record Db (T : Tables) : Type 0 where
  pub users : T.users.Table
  pub outbox : T.outbox.Table

unfoldable pub new_user : String → ℕ → String → String → UserEntity
new_user id now email password_hash = record {
  id = id;
  email = email;
  password_hash = password_hash;
  roles = Role.user ∷ [];
  refresh_token = none;
  is_active = true;
  created_at = now;
  updated_at = now;
}

unfoldable pub payload_of : String → UserEntity → JwtPayload
payload_of jti user = record { sub = user.id; email = user.email; roles = user.roles; jti = jti }

-- The columns that `usersRepo.update(id, { refreshToken })` writes.
unfoldable pub token_patch : ℕ → Option String → UserEntity → UserEntity
token_patch now token row = record row { refresh_token = token; updated_at = now }

unfoldable pub holds_token : String → UserEntity → Bool
holds_token hash user =
    user.is_active && elim user.refresh_token [ none ↦ false | some stored ↦ stored == hash ]

module _ (T : Tables) (K : Crypto) where
  abbrev pub Action : Type 0 → Type 0
  Action A = Exec AuthError (Db T) A

  unfoldable pub set_token : ℕ → String → Option String → Db T → Db T
  unfolding token_patch
  set_token now id token db = record db {
    users = T.users.update db.users id (token_patch now token);
  }

  unfoldable pub issued : ℕ → UserEntity → String → String → Action TokensResult
  unfolding set_token
  issued now user access_token refresh_token db =
      pure
        (record {
          access_token = access_token;
          refresh_token = refresh_token;
          expires_in = K.access_expires_in;
          user_id = user.id;
          email = user.email;
        })
        (set_token now user.id (some (K.hash_token refresh_token)) db)

  unfoldable pub issue_tokens : ℕ → String → UserEntity → Action TokensResult
  unfolding payload_of issued
  issue_tokens now jti user db = elim (K.sign_access now (payload_of jti user)) [
    | none ↦ throw sign_failed db
    | some access_token ↦ elim (K.sign_refresh now (payload_of jti user)) [
      | none ↦ throw sign_failed db
      | some refresh_token ↦ issued now user access_token refresh_token db
    ]
  ]

  -- The callback of the transaction in `register`.
  unfoldable pub insert_user : ℕ → String → RegisterInput → Action UserEntity
  unfolding new_user Outbox.write
  insert_user now salt input db =
      let row =
        new_user (T.users.generate db.users) now input.email
          (K.hash_password salt input.password) in
      elim (T.unique_email.insert db.users row) [
        | none ↦ throw unique_violation db
        | some users ↦ pure row (record {
          users = users;
          outbox =
              Outbox.write T.outbox now row.id KafkaTopic.user_registered row.id
                (Payload.user_registered (record { user_id = row.id; email = row.email }))
                db.outbox;
        })
      ]

  -- `err.code === '23505'`
  unfoldable pub taken : AuthError → AuthError
  taken unique_violation = email_already_taken
  taken e = e

  unfoldable pub register :
      DataSource AuthError (Db T) → ℕ → String → String → RegisterInput → Action TokensResult
  unfolding insert_user taken issue_tokens
  register D now jti salt input =
      try_catch (D.transaction UserEntity (insert_user now salt input)) (λ e. throw (taken e))
      >>= λ user. issue_tokens now jti user

  -- `where('user.email = :email').andWhere('user.isActive = true')`
  unfoldable pub find_login : String → Db T → Option UserEntity
  find_login email db = T.users.find_where db.users (λ u. u.email == email && u.is_active)

  unfoldable pub login : ℕ → String → LoginInput → Action TokensResult
  unfolding find_login issue_tokens
  login now jti input db = elim (find_login input.email db) [
    | none ↦ throw invalid_credentials db
    | some user ↦
        if K.compare_password input.password user.password_hash
        then issue_tokens now jti user db
        else throw invalid_credentials db
  ]

  -- `findOne({ where: { id, refreshToken, isActive: true } })`
  unfoldable pub find_holder : String → String → Db T → Option UserEntity
  unfolding holds_token
  find_holder id hash db = elim (T.users.find_one db.users id) [
    | none ↦ none
    | some user ↦ if holds_token hash user then some user else none
  ]

  unfoldable pub refresh : ℕ → String → String → Action TokensResult
  unfolding find_holder issue_tokens
  refresh now jti refresh_token db = elim (K.verify_refresh now refresh_token) [
    | none ↦ throw invalid_refresh_token db
    | some payload ↦ elim (find_holder payload.sub (K.hash_token refresh_token) db) [
      | none ↦ throw refresh_token_revoked db
      | some user ↦ issue_tokens now jti user db
    ]
  ]

  unfoldable pub logout : ℕ → String → Action (Unit {0})
  unfolding set_token
  logout now user_id = modify (set_token now user_id none)
