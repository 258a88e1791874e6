-- ===== src/Gateway/Handlers/Orders.antt =====
-- orders-proxy.controller.ts
use Prim.Native.String.{◌++◌ as ◌++ₛ◌}
use shop_microservices.Prelude.{String, Option, none, List, []}
use shop_microservices.Gateway.Proxy.{order_service}
use shop_microservices.Gateway.Handlers.{RouteHandler, for_user, list_path}

module _ {B : Type 0} where
  unfoldable pub create_order_handler : Option B → RouteHandler B
  create_order_handler body = for_user [] order_service "POST" (λ user. "/orders") body

  unfoldable pub list_orders_handler :
      (List (String × String) → String) → Option String → Option String → RouteHandler B
  unfolding list_path
  list_orders_handler to_query page limit =
      for_user [] order_service "GET" (λ user. list_path to_query "/orders" page limit) none

  unfoldable pub get_order_handler : String → RouteHandler B
  get_order_handler id = for_user [] order_service "GET" (λ user. "/orders/" ++ₛ id) none
