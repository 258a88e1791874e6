-- ===== src/Gateway/Handlers/Products.antt =====
-- products-proxy.controller.ts
use Prim.Native.String.{◌++◌ as ◌++ₛ◌}
use shop_microservices.Prelude.{String, Option, none, List, []}
use shop_microservices.Gateway.Proxy.{product_service}
use shop_microservices.Gateway.Handlers.{RouteHandler, for_user, admins, list_path}

module _ {B : Type 0} where
  unfoldable pub list_products_handler :
      (List (String × String) → String) → Option String → Option String → RouteHandler B
  unfolding list_path
  list_products_handler to_query page limit =
      for_user [] product_service "GET" (λ user. list_path to_query "/products" page limit) none

  unfoldable pub get_product_handler : String → RouteHandler B
  get_product_handler id = for_user [] product_service "GET" (λ user. "/products/" ++ₛ id) none

  unfoldable pub create_product_handler : Option B → RouteHandler B
  create_product_handler body = for_user admins product_service "POST" (λ user. "/products") body

  unfoldable pub update_product_handler : String → Option B → RouteHandler B
  update_product_handler id body =
      for_user admins product_service "PATCH" (λ user. "/products/" ++ₛ id) body

  unfoldable pub remove_product_handler : String → RouteHandler B
  remove_product_handler id =
      for_user admins product_service "DELETE" (λ user. "/products/" ++ₛ id) none
