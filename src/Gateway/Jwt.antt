-- ===== src/Gateway/Jwt.antt =====
-- modules/auth/jwt.strategy.ts, and what the logout of auth-proxy.controller.ts does to the cache of
-- the strategy. Redis behind cache-manager is a parameter, and so is what passport-jwt has verified.
pub mod Cached
mod Examples
use Prim.Native.String.{◌++◌ as ◌++ₛ◌}
use shop_microservices.Prelude.{
  ℕ, ◌-◌, ◌*◌, ◌/◌, ◌≡◌, ◌⊎◌, String, Option, none, some, List, [], ltb, if◌then◌else◌,
}
use shop_microservices.Prelude.Decimal.{show_number}
use shop_microservices.Shared.{Role}
use shop_microservices.Http.{RequestUser}

-- The claims that a token holds.
pub record JwtPayload : Type 0 where
  pub sub : String
  pub email : String
  pub roles : Option (List Role)
  pub iat : Option ℕ
  pub exp : Option ℕ

-- What `cache.get` gives: Redis may be down.
pub data CacheReply : Type 0 where
  unavailable miss : CacheReply
  hit : RequestUser → CacheReply

-- The cache at a time. `none` is a call that throws. An entry may expire at any time.
pub record UserCache : Type 1 where
  pub Store : Type 0
  pub get : ℕ → Store → String → CacheReply
  pub set : ℕ → Store → String → RequestUser → ℕ → Option Store
  pub del : ℕ → Store → String → Option Store
  pub get-set :
      (now later ttl : ℕ) (s s' : Store) (k k' : String) (u v : RequestUser)
      → set now s k u ttl ≡ some s'
      → get later s' k' ≡ hit v
      → ((k' ≡ k) × (v ≡ u)) ⊎ (get later s k' ≡ hit v)
  pub get-del :
      (now later : ℕ) (s s' : Store) (k k' : String) (v : RequestUser)
      → del now s k ≡ some s'
      → get later s' k' ≡ hit v
      → get later s k' ≡ hit v

-- `${iat}` of an absent claim is the text "undefined".
unfoldable pub show_claim : Option ℕ → String
show_claim none = "undefined"
show_claim (some n) = show_number n

-- `jwt:${payload.sub}:${payload.iat}`
unfoldable pub cache_key : JwtPayload → String
unfolding show_claim
cache_key payload = "jwt:" ++ₛ (payload.sub ++ₛ (":" ++ₛ show_claim payload.iat))

-- `payload.roles ?? []`
unfoldable pub or_no_roles : Option (List Role) → List Role
or_no_roles none = []
or_no_roles (some roles) = roles

unfoldable pub user_of : JwtPayload → RequestUser
unfolding or_no_roles
user_of payload = record {
  id = payload.sub;
  email = payload.email;
  roles = or_no_roles payload.roles;
}

-- `(payload.exp ?? 0) - Math.floor(Date.now() / 1000)` in seconds; it is 0 where the source has a
-- number below.
unfoldable pub seconds_left : ℕ → Option ℕ → ℕ
seconds_left now none = 0
seconds_left now (some exp) = exp - now / 1000

module _ (C : UserCache) where
  -- A write that throws is logged.
  unfoldable pub remember : ℕ → JwtPayload → C.Store → C.Store
  unfolding cache_key user_of seconds_left
  remember now payload s =
      let ttl_ms = seconds_left now payload.exp * 1000 in
      if ltb 0 ttl_ms
      then elim (C.set now s (cache_key payload) (user_of payload) ttl_ms) [
        | none ↦ s
        | some s' ↦ s'
      ]
      else s

  -- A read that throws is logged, and the user comes from the token.
  unfoldable pub validate : ℕ → JwtPayload → C.Store → RequestUser × C.Store
  unfolding cache_key user_of remember
  validate now payload s = elim (C.get now s (cache_key payload)) [
    | hit user ↦ (user, s)
    | miss ↦ (user_of payload, remember now payload s)
    | unavailable ↦ (user_of payload, remember now payload s)
  ]

  -- The end of `logout`, with what `jwtService.decode` gives for the token of the request. A time of
  -- issue that is absent or 0 is falsy.
  unfoldable pub forget : ℕ → Option JwtPayload → C.Store → C.Store
  unfolding cache_key
  forget now none s = s
  forget now (some payload) s = elim payload.iat [
    | none ↦ s
    | some iat ↦
        if ltb 0 iat then elim (C.del now s (cache_key payload)) [ none ↦ s | some s' ↦ s' ] else s
  ]
