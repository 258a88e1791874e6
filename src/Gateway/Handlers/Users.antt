-- ===== src/Gateway/Handlers/Users.antt =====
-- users-proxy.controller.ts
use Prim.Native.String.{◌++◌ as ◌++ₛ◌}
use shop_microservices.Prelude.{String, Option, none, List, []}
use shop_microservices.Gateway.Proxy.{user_service}
use shop_microservices.Gateway.Handlers.{RouteHandler, for_user, admins, list_path, id_of}

module _ {B : Type 0} where
  unfoldable pub list_users_handler :
      (List (String × String) → String) → Option String → Option String → RouteHandler B
  unfolding list_path
  list_users_handler to_query page limit =
      for_user admins user_service "GET" (λ user. list_path to_query "/users" page limit) none

  unfoldable pub get_me_handler : RouteHandler B
  get_me_handler = for_user [] user_service "GET" (λ user. "/users/" ++ₛ id_of user) none

  unfoldable pub get_user_handler : String → RouteHandler B
  get_user_handler id = for_user [] user_service "GET" (λ user. "/users/" ++ₛ id) none

  unfoldable pub update_user_handler : String → Option B → RouteHandler B
  update_user_handler id body = for_user [] user_service "PATCH" (λ user. "/users/" ++ₛ id) body

  unfoldable pub delete_user_handler : String → RouteHandler B
  delete_user_handler id = for_user admins user_service "DELETE" (λ user. "/users/" ++ₛ id) none
