-- ===== src/Auth/Controller.antt =====
-- auth.controller.ts. Bodies have passed their DTOs.
use shop_microservices.Prelude.{ℕ, String, ◌==◌, Option, if◌then◌else◌}
use shop_microservices.Exec.{Exec, DataSource, throw}
use shop_microservices.Http.{
  Thrown, http, unhandled, call, conflict, unauthorized, bad_request, or_empty,
}
use shop_microservices.Auth.{
  RegisterInput, LoginInput, TokensResult, AuthError, email_already_taken, invalid_credentials,
  invalid_refresh_token, refresh_token_revoked, Crypto, Tables, Db, register, login, refresh,
  logout,
}

-- `if (e instanceof EmailAlreadyTakenError) throw new ConflictException(e.message)`
unfoldable pub when_taken : AuthError → Thrown AuthError
when_taken email_already_taken = http (conflict "Email already registered")
when_taken e = unhandled e

unfoldable pub when_invalid : AuthError → Thrown AuthError
when_invalid invalid_credentials = http (unauthorized "Invalid credentials")
when_invalid e = unhandled e

unfoldable pub when_not_refreshed : AuthError → Thrown AuthError
when_not_refreshed invalid_refresh_token = http (unauthorized "Invalid refresh token")
when_not_refreshed refresh_token_revoked = http (unauthorized "Refresh token revoked")
when_not_refreshed e = unhandled e

module _ (T : Tables) (K : Crypto) where
  abbrev pub Handling : Type 0 → Type 0
  Handling A = Exec (Thrown AuthError) (Db T) A

  unfoldable pub handle_register :
      DataSource AuthError (Db T) → ℕ → String → String → RegisterInput → Handling TokensResult
  unfolding register when_taken
  handle_register D now jti salt dto = call when_taken (register T K D now jti salt dto)

  unfoldable pub handle_login : ℕ → String → LoginInput → Handling TokensResult
  unfolding login when_invalid
  handle_login now jti dto = call when_invalid (login T K now jti dto)

  unfoldable pub handle_refresh : ℕ → String → String → Handling TokensResult
  unfolding refresh when_not_refreshed
  handle_refresh now jti refresh_token = call when_not_refreshed (refresh T K now jti refresh_token)

  -- `if (!userId) throw new BadRequestException(…)`
  unfoldable pub handle_logout : ℕ → Option String → Handling (Unit {0})
  unfolding logout
  handle_logout now user_id =
      if or_empty user_id == ""
      then throw (http (bad_request "Missing user id"))
      else call unhandled (logout T K now (or_empty user_id))
