-- ===== src/Auth/Tokens.antt =====
-- What issuing a token does to the user's row, and who holds a token.
use shop_microservices.Prelude.{
  true, arith, sym, ap, subst, if◌then◌else◌, ◌∙◌, ℕ, String, ◌≡◌, ◌⊎◌, inl, inr, refl, Option,
  none, some, eq_refl, Option-cases,
}
use shop_microservices.Exec.{Result, ok, err}
use shop_microservices.Auth.{
  issue_tokens, issued, payload_of, TokensResult, AuthError, holds_token, UserEntity, JwtPayload,
  invalid_refresh_token, refresh_token_revoked, Crypto, Tables, Db, token_patch, set_token,
  find_holder, refresh,
}

abbrev token_in : Result AuthError TokensResult → String → String
token_in (ok tokens) t = tokens.refresh_token
token_in (err e) t = t

module _ (T : Tables) (K : Crypto) where
  pub find_one-set_token :
      (now : ℕ) (id : String) (token : Option String) (db : Db T) (user : UserEntity)
      → T.users.find_one db.users id ≡ some user
      → T.users.find_one (set_token T K now id token db).users id
        ≡ some (token_patch now token user)
  unfolding set_token token_patch
  find_one-set_token now id token db user found =
      rw
        (
          T.users.find_one-update db.users id (token_patch now token) (λ r. refl) id,
          eq_refl id,
          found,
        )
        refl

  -- A token is refused, and the refusal changes nothing.
  abbrev pub Refused : ℕ → String → String → Db T → Type 0
  Refused now jti token db =
      (refresh T K now jti token db ≡ (err invalid_refresh_token, db))
      ⊎ (refresh T K now jti token db ≡ (err refresh_token_revoked, db))

  -- No user holds the token.
  pub refused :
      (now : ℕ) (jti token : String) (db : Db T)
      → ((payload : JwtPayload)
          → K.verify_refresh now token ≡ some payload
          → find_holder T K payload.sub (K.hash_token token) db ≡ none)
      → Refused now jti token db
  unfolding refresh
  refused now jti token db nobody = elim (Option-cases (K.verify_refresh now token)) [
    | inl bad ↦ inl (rw (refresh, bad))
    | inr (payload, good) ↦ inr (rw (refresh, good, nobody payload good))
  ]

  pub issued_ok :
      (now : ℕ) (jti : String) (user : UserEntity) (db db' : Db T) (tokens : TokensResult)
      → issue_tokens T K now jti user db ≡ (ok tokens, db')
      → (K.sign_refresh now (payload_of jti user) ≡ some tokens.refresh_token)
        × (db' ≡ set_token T K now user.id (some (K.hash_token tokens.refresh_token)) db)
  unfolding issue_tokens issued
  issued_ok now jti user db db' tokens runs =
      elim (Option-cases (K.sign_access now (payload_of jti user))) [
        | inl bad ↦ absurd (cc (rw (issue_tokens, bad) at runs))
        | inr (a, signs_a) ↦ elim (Option-cases (K.sign_refresh now (payload_of jti user))) [
          | inl bad ↦ absurd (cc (rw (issue_tokens, signs_a, bad) at runs))
          | inr (r, signs_r) ↦
              let done = rw (issue_tokens, signs_a, signs_r, issued) at runs in
              let same = ap (λ o. token_in o.0 r) done in
              (
                signs_r ∙ ap (λ t. some t) same,
                subst (λ t. db' ≡ set_token T K now user.id (some (K.hash_token t)) db) same
                    (sym (ap (λ o. o.1) done)),
              )
        ]
      ]

  -- The holder of a token after the user's token was replaced.
  pub find_holder-set_token :
      (now : ℕ) (id hash : String) (token : Option String) (db : Db T) (user : UserEntity)
      → T.users.find_one db.users id ≡ some user
      → find_holder T K id hash (set_token T K now id token db) ≡ (
          if holds_token hash (token_patch now token user)
          then some (token_patch now token user)
          else none)
  unfolding find_holder
  find_holder-set_token now id hash token db user found =
      rw (find_holder, find_one-set_token now id token db user found) refl

  pub holder :
      (id hash : String) (db : Db T) (user : UserEntity)
      → find_holder T K id hash db ≡ some user
      → (T.users.find_one db.users id ≡ some user) × (user.is_active ≡ true)
  unfolding find_holder holds_token
  holder id hash db user h = ground (arith, h)
