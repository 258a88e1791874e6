-- ===== src/Gateway/Handlers/Auth.antt =====
-- auth-proxy.controller.ts. What logout does to the cache is in Gateway.Jwt.
use shop_microservices.Prelude.{Option, none, []}
use shop_microservices.Gateway.Proxy.{auth_service}
use shop_microservices.Gateway.Handlers.{RouteHandler, for_user, for_anyone}

module _ {B : Type 0} where
  unfoldable pub login_handler : Option B → RouteHandler B
  login_handler body = for_anyone auth_service "POST" "/auth/login" body

  unfoldable pub register_handler : Option B → RouteHandler B
  register_handler body = for_anyone auth_service "POST" "/auth/register" body

  unfoldable pub refresh_handler : Option B → RouteHandler B
  refresh_handler body = for_anyone auth_service "POST" "/auth/refresh" body

  unfoldable pub logout_handler : RouteHandler B
  logout_handler = for_user [] auth_service "POST" (λ user. "/auth/logout") none
