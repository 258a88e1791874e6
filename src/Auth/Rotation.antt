-- ===== src/Auth/Rotation.antt =====
-- Refresh tokens: each works until it is replaced or the user logs out.
use shop_microservices.Prelude.{
  ℕ, ◌+◌, ◌/◌, ◌<◌, String, ◌==◌, ◌≡◌, inl, inr, refl, sym, ap, subst, true, false, none, some,
  eq_refl, Option-cases, ◌∙◌, arith, if◌then◌else◌,
}
use shop_microservices.Exec.{ok}
use shop_microservices.Auth.{
  UserEntity, JwtPayload, TokensResult, Crypto, Tables, Db, token_patch, holds_token, set_token,
  issue_tokens, find_holder, refresh, logout, payload_of,
}
use shop_microservices.Auth.Tokens.{
  Refused, refused, issued_ok, find_holder-set_token, find_one-set_token, holder,
}

module _ (T : Tables) (K : Crypto) where
  -- What a refresh that succeeds has gone through.
  abbrev pub Refreshed : ℕ → String → String → Db T → Db T → TokensResult → Type 0
  Refreshed now jti token db db' tokens =
      (payload : JwtPayload) × (user : UserEntity) × (K.verify_refresh now token ≡ some payload)
      × (find_holder T K payload.sub (K.hash_token token) db ≡ some user)
      × (issue_tokens T K now jti user db ≡ (ok tokens, db'))

  refreshed :
      (now : ℕ) (jti token : String) (db db' : Db T) (tokens : TokensResult)
      → refresh T K now jti token db ≡ (ok tokens, db')
      → Refreshed now jti token db db' tokens
  unfolding refresh
  refreshed now jti token db db' tokens runs = elim (Option-cases (K.verify_refresh now token)) [
    | inl bad ↦ absurd (cc (rw (refresh, bad) at runs))
    | inr (payload, good) ↦
        elim (Option-cases (find_holder T K payload.sub (K.hash_token token) db)) [
          | inl nobody ↦ absurd (cc (rw (refresh, good, nobody) at runs))
          | inr (user, found) ↦ (payload, user, good, found, rw (refresh, good, found) at runs)
        ]
  ]

  not_held :
      (now : ℕ) (hash h : String) (user : UserEntity)
      → h == hash ≡ false
      → holds_token hash (token_patch now (some h) user) ≡ false
  unfolding holds_token token_patch
  not_held now hash h user differ = ground (arith, differ)

  held :
      (now : ℕ) (h : String) (user : UserEntity)
      → user.is_active ≡ true
      → holds_token h (token_patch now (some h) user) ≡ true
  unfolding holds_token token_patch
  held now h user active = ground (arith, active, eq_refl h)

  -- The user's row after a refresh.
  rotated :
      (now : ℕ) (hash h : String) (id : String) (db : Db T) (user : UserEntity)
      → find_holder T K id hash db ≡ some user
      → (hash' : String)
      → find_holder T K id hash' (set_token T K now user.id (some h) db) ≡ (
          if holds_token hash' (token_patch now (some h) user)
          then some (token_patch now (some h) user)
          else none)
  rotated now hash h id db user found hash' =
      let stored = (holder T K id hash db user found).0 in
      subst
        (λ i. find_holder T K id hash' (set_token T K now i (some h) db) ≡ (
          if holds_token hash' (token_patch now (some h) user)
          then some (token_patch now (some h) user)
          else none))
        (sym (T.users.key-find_one db.users id user stored))
        (find_holder-set_token T K now id hash' (some h) db user stored)

  -- After a refresh that succeeded and whose new token has another hash, the old token is refused
  -- at any time, as invalid or as revoked, and the refusal changes nothing.
  pub refresh_revokes :
      (now later : ℕ) (jti jti' token : String) (db db' : Db T) (tokens : TokensResult)
      → refresh T K now jti token db ≡ (ok tokens, db')
      → K.hash_token tokens.refresh_token == K.hash_token token ≡ false
      → Refused T K later jti' token db'
  refresh_revokes now later jti jti' token db db' tokens runs differ =
      let (payload, user, good, found, issues) = refreshed now jti token db db' tokens runs in
      let moved = (issued_ok T K now jti user db db' tokens issues).1 in
      refused T K later jti' token db' (λ payload' good'.
        subst (λ (p : JwtPayload). find_holder T K p.sub (K.hash_token token) db' ≡ none)
          (sym (K.verify_refresh_same now later token payload payload' good good'))
          (subst (λ d. find_holder T K payload.sub (K.hash_token token) d ≡ none) (sym moved)
            (rw
              (
                rotated now (K.hash_token token) (K.hash_token tokens.refresh_token) payload.sub db
                    user found (K.hash_token token),
                not_held now (K.hash_token token) (K.hash_token tokens.refresh_token) user differ,
              )
              refl)))

  -- A user with a token at hand is accepted.
  accepted :
      (now later : ℕ) (jti jti' token : String) (db : Db T) (user : UserEntity)
      → T.users.find_one db.users user.id ≡ some user
      → user.is_active ≡ true
      → K.verify_refresh later token ≡ some (payload_of jti user)
      → let db' = set_token T K now user.id (some (K.hash_token token)) db in
        refresh T K later jti' token db'
        ≡ issue_tokens T K later jti' (token_patch now (some (K.hash_token token)) user) db'
  unfolding refresh payload_of
  accepted now later jti jti' token db user stored active good =
      rw
        (
          refresh,
          good,
          find_holder-set_token T K now user.id (K.hash_token token) (some (K.hash_token token)) db
              user stored,
          held now (K.hash_token token) user active,
        )
        refl

  -- The token that a refresh returned is accepted until it expires, counted in whole seconds as the
  -- token does: a refresh with it goes on to issue tokens for the stored user.
  pub refresh_accepts :
      (now later : ℕ) (jti jti' token : String) (db db' : Db T) (tokens : TokensResult)
      → refresh T K now jti token db ≡ (ok tokens, db')
      → later / 1000 < now / 1000 + K.refresh_expires_in
      → (user : UserEntity) × (T.users.find_one db'.users user.id ≡ some user)
        × (refresh T K later jti' tokens.refresh_token db' ≡ issue_tokens T K later jti' user db')
  unfolding token_patch
  refresh_accepts now later jti jti' token db db' tokens runs valid =
      let (payload, user, good, found, issues) = refreshed now jti token db db' tokens runs in
      let (signs, moved) = issued_ok T K now jti user db db' tokens issues in
      let (stored, active) = holder T K payload.sub (K.hash_token token) db user found in
      let here =
        subst (λ i. T.users.find_one db.users i ≡ some user)
          (sym (T.users.key-find_one db.users payload.sub user stored)) stored in
      subst
        (λ d.
          (u : UserEntity) × (T.users.find_one d.users u.id ≡ some u)
          × (refresh T K later jti' tokens.refresh_token d ≡ issue_tokens T K later jti' u d))
        (sym moved)
        (
          token_patch now (some (K.hash_token tokens.refresh_token)) user,
          find_one-set_token T K now user.id (some (K.hash_token tokens.refresh_token)) db user
              here,
          accepted now later jti jti' tokens.refresh_token db user here active (
              K.verify_refresh-sign_refresh now later (payload_of jti user) tokens.refresh_token
                signs valid),
        )

  not_held_after :
      (now : ℕ) (hash : String) (user : UserEntity)
      → holds_token hash (token_patch now none user) ≡ false
  unfolding holds_token token_patch
  not_held_after now hash user = ground arith

  logged_out :
      (now : ℕ) (id hash : String) (db : Db T)
      → find_holder T K id hash (set_token T K now id none db) ≡ none
  unfolding find_holder set_token token_patch
  logged_out now id hash db = elim (Option-cases (T.users.find_one db.users id)) [
    | inl absent ↦
        rw
          (
            find_holder,
            T.users.find_one-update db.users id (token_patch now none) (λ r. refl) id,
            eq_refl id,
            absent,
          )
          refl
    | inr (user, stored) ↦
        rw (find_holder-set_token T K now id hash none db user stored, not_held_after now hash user)
          refl
  ]

  -- After a user has logged out, every refresh token whose claims name the user is refused, and the
  -- refusal changes nothing.
  pub logout_refuses :
      (now later : ℕ) (jti token user_id : String) (db : Db T) (payload : JwtPayload)
      → K.verify_refresh later token ≡ some payload
      → payload.sub ≡ user_id
      → Refused T K later jti token (logout T K now user_id db).1
  unfolding logout
  logout_refuses now later jti token user_id db payload good same =
      refused T K later jti token (set_token T K now user_id none db) (λ payload' good'.
        subst
          (λ i. find_holder T K i (K.hash_token token) (set_token T K now user_id none db) ≡ none)
          (sym (
            ap (λ (p : JwtPayload). p.sub)
              (K.verify_refresh_same later later token payload payload' good good')
            ∙ same))
          (logged_out now user_id (K.hash_token token) db))
