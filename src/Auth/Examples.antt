-- ===== src/Auth/Examples.antt =====
-- The theorems about tokens with one user and a signature that is the token's id.
use Prim.Native.String.{◌++◌ as ◌++ₛ◌}
use shop_microservices.Prelude.{
  subst, String, ◌==◌, ◌≡◌, ◌⊎◌, inl, inr, refl, ap, Bool, true, false, ◌&&◌, Option, none, some,
  List, [], ◌∷◌, if◌then◌else◌, eq_iff, arith, Bool-cases,
}
use shop_microservices.Exec.{ok, DataSource, settled}
use shop_microservices.Repository.Memory.{memory, memory_unique}
use shop_microservices.Repository.Memory.Rows.{find_one, update}
use shop_microservices.Shared.{Role}
use shop_microservices.Outbox.{OutboxEntity, outbox_key}
use shop_microservices.Auth.{
  UserEntity, JwtPayload, TokensResult, AuthError, Crypto, Tables, Db, user_key, same_email,
  refresh, logout, issue_tokens, RegisterInput, find_holder, holds_token, issued, set_token,
  token_patch, payload_of,
}
use shop_microservices.Auth.Tokens.{Refused}
use shop_microservices.Auth.Rotation.{refresh_revokes, refresh_accepts, logout_refuses}
use shop_microservices.Auth.Registration.{Stored, Taken, register_cases}

abbrev tables : Tables
tables = record {
  users = memory UserEntity user_key;
  unique_email = memory_unique UserEntity user_key same_email;
  outbox = memory OutboxEntity outbox_key;
}

abbrev source : DataSource AuthError (Db tables)
source = record {
  transaction = λ A callback s. settled s (callback s);
  transaction_lem = λ A callback s. refl;
}

abbrev claims : String → JwtPayload
claims jti = record { sub = "u1"; email = "u1@shop.test"; roles = Role.user ∷ []; jti = jti }

abbrev only_user : List Role → Bool
only_user (Role.user ∷ []) = true
only_user _ = false

abbrev is_known : JwtPayload → Bool
is_known p = p.sub == "u1" && (p.email == "u1@shop.test" && only_user p.roles)

only_user_lem : (rs : List Role) → only_user rs ≡ true → rs ≡ Role.user ∷ []
only_user_lem [] h = absurd (cc h)
only_user_lem (Role.user ∷ []) h = refl
only_user_lem (Role.user ∷ r ∷ rs) h = absurd (cc h)
only_user_lem (Role.admin ∷ rs) h = absurd (cc h)
only_user_lem (Role.moderator ∷ rs) h = absurd (cc h)

is_known_lem : (p : JwtPayload) → is_known p ≡ true → claims p.jti ≡ p
is_known_lem p h =
    ground (arith, h, eq_iff p.sub "u1", eq_iff p.email "u1@shop.test", only_user_lem p.roles)

signs_known :
    (p : JwtPayload) (token : String)
    → (if is_known p then some p.jti else none) ≡ some token
    → some (claims token) ≡ some p
signs_known p token h = elim (Bool-cases (is_known p)) [
  | inl known ↦
      ap (λ q. some q) (subst (λ t. claims t ≡ p) (cc (rw known at h)) (is_known_lem p known))
  | inr unknown ↦ absurd (cc (rw unknown at h))
]

same_claims : (c p p' : JwtPayload) → some c ≡ some p → some c ≡ some p' → p' ≡ p
same_claims c p p' reads reads' = cc (reads, reads')

abbrev crypto : Crypto
crypto = record {
  hash_password = λ salt s. salt ++ₛ s;
  compare_password = λ s h. h == "salt" ++ₛ s;
  hash_token = λ s. s;
  access_expires_in = 3600;
  refresh_expires_in = 604800;
  sign_access = λ now p. some "access";
  sign_refresh = λ now p. if is_known p then some p.jti else none;
  verify_refresh = λ now token. some (claims token);
  verify_refresh-sign_refresh = λ now later p token signs valid. signs_known p token signs;
  verify_refresh_same =
      λ now later token p p' reads reads'. same_claims (claims token) p p' reads reads';
}

abbrev user : Option String → UserEntity
user token = record {
  id = "u1";
  email = "u1@shop.test";
  password_hash = "saltsecret";
  roles = Role.user ∷ [];
  refresh_token = token;
  is_active = true;
  created_at = 0;
  updated_at = 0;
}

abbrev members : Db tables
members = record { users = user (some "t1") ∷ []; outbox = [] }

abbrev rotated_members : Db tables
rotated_members = record { users = record (user (some "t2")) { updated_at = 5 } ∷ []; outbox = [] }

abbrev tokens : TokensResult
tokens = record {
  access_token = "access";
  refresh_token = "t2";
  expires_in = 3600;
  user_id = "u1";
  email = "u1@shop.test";
}

refreshes : refresh tables crypto 5 "t2" "t1" members ≡ (ok tokens, rotated_members)
unfolding refresh find_holder find_one holds_token issue_tokens payload_of issued set_token update
    token_patch
refreshes = refl

refresh_revokes_example : Refused tables crypto 9 "t3" "t1" rotated_members
refresh_revokes_example =
    refresh_revokes tables crypto 5 9 "t2" "t3" "t1" members rotated_members tokens refreshes refl

refresh_accepts_example :
    (u : UserEntity) × (tables.users.find_one rotated_members.users u.id ≡ some u)
    × (refresh tables crypto 9 "t3" "t2" rotated_members
        ≡ issue_tokens tables crypto 9 "t3" u rotated_members)
refresh_accepts_example =
    refresh_accepts tables crypto 5 9 "t2" "t3" "t1" members rotated_members tokens refreshes
      (omega arith)

logout_refuses_example : Refused tables crypto 9 "t3" "t1" (logout tables crypto 5 "u1" members).1
logout_refuses_example =
    logout_refuses tables crypto 5 9 "t3" "t1" "u1" members (claims "t1") refl refl

abbrev newcomer : RegisterInput
newcomer = record { email = "u2@shop.test"; password = "letmein" }

register_cases_example :
    Stored tables crypto source 5 "t2" "salt" newcomer members
    ⊎ Taken tables crypto source 5 "t2" "salt" newcomer members
register_cases_example = register_cases tables crypto source 5 "t2" "salt" newcomer members
