-- ===== src/Gateway/Routes/Safety.antt =====
-- Who gets through the gateway, and what a service then sees of them.
use shop_microservices.Gateway.Handlers.{RouteHandler}
use Prim.Native.String.{◌++◌ as ◌++ₛ◌}
use shop_microservices.Prelude.{
  Option, sym, ℕ, String, ◌≡◌, true, false, none, some, List, [], ◌∷◌, ◌++◌, ◌⊎◌, inl, inr,
}
use shop_microservices.Exec.{Result, ok, err}
use shop_microservices.Shared.{Role}
use shop_microservices.Http.{HttpException, RequestUser, unauthorized, forbidden}
use shop_microservices.Gateway.Guards.{includes}
use shop_microservices.Gateway.Proxy.{
  ServiceName, FetchRequest, FetchError, FetchResponse, fetch_request,
}
use shop_microservices.Gateway.Routes.{
  handler_of, Environment, GatewayRequest, correlation_of, serve,
}
use shop_microservices.Gateway.Guards.Laws.{check_roles-refused, guard_nobody, guard_stops}
use shop_microservices.Gateway.Routes.Proxied.{IsProxied, handler_of-IsProxied}

code_of : Result FetchError FetchResponse → Option String
code_of (ok response) = none
code_of (err error) = error.code

-- The user may call the route.
abbrev pub IsAllowed : {B : Type 0} → RouteHandler B → RequestUser → Type 0
IsAllowed handler user = (handler.required_roles ≡ []) ⊎ (includes Role.admin user.roles ≡ true)

module _ {B : Type 0} (env : Environment B) (random_uuid : String) (request : GatewayRequest B)
    (requests : List (ServiceName × FetchRequest)) where
  abbrev pub handler : RouteHandler B
  handler = handler_of env.to_query request.route

  abbrev proxied : IsProxied handler
  proxied = handler_of-IsProxied env.to_query request.route

  -- The request that the handler makes for the user.
  abbrev pub forwarded : RequestUser → FetchRequest
  forwarded user =
      fetch_request env.config handler.service
        (handler.options (some user) (some (correlation_of request.correlation_header random_uuid)))

  -- The breaker of the service is open: `fire` throws its error and calls nothing.
  abbrev pub IsOpen : RequestUser → Type 0
  IsOpen user =
      (message : String) × (env.fetch handler.service (forwarded user)
        ≡ err (record { code = some "EOPENBREAKER"; message = message }))

  -- Why a request does not get through, with the status that it is answered with.
  abbrev pub IsUnwelcome : ℕ → Type 0
  IsUnwelcome status =
      ((status ≡ 401) × ((env.authenticate request.token).1 ≡ none))
      ⊎ ((status ≡ 403)
          × ((user : RequestUser) × (env.authenticate request.token ≡ (false, some user))
              × (handler.required_roles ≡ Role.admin ∷ [])
              × (includes Role.admin user.roles ≡ false)))

  -- A request to a route that is not public whose token gives no user is answered with 401, and one
  -- to a route for administrators by another user with 403; in both cases no service is asked.
  pub serve_refuses :
      (status : ℕ)
      → handler.is_public ≡ false
      → IsUnwelcome status
      → (e : HttpException) × (e.status ≡ status)
        × (serve env random_uuid request requests ≡ (err e, requests))
  unfolding serve
  serve_refuses status private (inl (is_401, nobody)) = (
    unauthorized "Invalid or missing token",
    sym is_401,
    rw (serve, private, guard_nobody handler.required_roles env.authenticate request.token nobody),
  )
  serve_refuses status private (inr (is_403, (user, known, for_admins, other))) = (
    forbidden "Access denied. Required roles: admin",
    sym is_403,
    rw (
      serve,
      private,
      guard_stops handler.required_roles env.authenticate request.token user known
          (forbidden "Access denied. Required roles: admin")
          (check_roles-refused handler.required_roles user for_admins other),
    ),
  )
