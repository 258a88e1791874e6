-- ===== src/Gateway/Routes.antt =====
-- A request to the gateway as a whole: app.module.ts installs the guards and the interceptor of the
-- correlation id around the handlers of Gateway.Handlers.
pub mod Proxied
pub mod Safety
mod Examples
use shop_microservices.Prelude.{String, Bool, Option, none, some, List}
use shop_microservices.Exec.{Exec, ok, err, throw}
use shop_microservices.Http.{HttpException, RequestUser}
use shop_microservices.Gateway.Guards.{guard_request}
use shop_microservices.Gateway.Handlers.{RouteHandler}
use shop_microservices.Gateway.Handlers.Auth.{
  login_handler, register_handler, refresh_handler, logout_handler,
}
use shop_microservices.Gateway.Handlers.Users.{
  list_users_handler, get_me_handler, get_user_handler, update_user_handler, delete_user_handler,
}
use shop_microservices.Gateway.Handlers.Products.{
  list_products_handler, get_product_handler, create_product_handler, update_product_handler,
  remove_product_handler,
}
use shop_microservices.Gateway.Handlers.Orders.{
  create_order_handler, list_orders_handler, get_order_handler,
}
use shop_microservices.Gateway.Handlers.Payments.{
  get_my_wallet_handler, get_wallet_handler, top_up_handler,
}
use shop_microservices.Gateway.Proxy.{
  ServiceName, ProxyResponse, Config, Fetch, FetchRequest, proxy,
}

-- The routes, with what their handlers take of the request.
pub data Route (B : Type 0) : Type 0 where
  login register refresh : Option B → Route B
  logout : Route B
  list_users : Option String → Option String → Route B
  get_me : Route B
  get_user : String → Route B
  update_user : String → Option B → Route B
  delete_user : String → Route B
  list_products : Option String → Option String → Route B
  get_product : String → Route B
  create_product : Option B → Route B
  update_product : String → Option B → Route B
  remove_product : String → Route B
  create_order : Option B → Route B
  list_orders : Option String → Option String → Route B
  get_order : String → Route B
  get_my_wallet : Route B
  get_wallet : String → Route B
  top_up : String → Option B → Route B

module _ {B : Type 0} (to_query : List (String × String) → String) where
  unfoldable pub handler_of : Route B → RouteHandler B
  unfolding login_handler register_handler refresh_handler logout_handler list_users_handler
      get_me_handler get_user_handler update_user_handler delete_user_handler list_products_handler
      get_product_handler create_product_handler update_product_handler remove_product_handler
      create_order_handler list_orders_handler get_order_handler get_my_wallet_handler
      get_wallet_handler top_up_handler
  handler_of (login body) = login_handler body
  handler_of (register body) = register_handler body
  handler_of (refresh body) = refresh_handler body
  handler_of logout = logout_handler
  handler_of (list_users page limit) = list_users_handler to_query page limit
  handler_of get_me = get_me_handler
  handler_of (get_user id) = get_user_handler id
  handler_of (update_user id body) = update_user_handler id body
  handler_of (delete_user id) = delete_user_handler id
  handler_of (list_products page limit) = list_products_handler to_query page limit
  handler_of (get_product id) = get_product_handler id
  handler_of (create_product body) = create_product_handler body
  handler_of (update_product id body) = update_product_handler id body
  handler_of (remove_product id) = remove_product_handler id
  handler_of (create_order body) = create_order_handler body
  handler_of (list_orders page limit) = list_orders_handler to_query page limit
  handler_of (get_order id) = get_order_handler id
  handler_of get_my_wallet = get_my_wallet_handler
  handler_of (get_wallet user_id) = get_wallet_handler user_id
  handler_of (top_up user_id body) = top_up_handler user_id body

-- What the gateway relies on and is configured with.
pub record Environment (B : Type 0) : Type 0 where
  pub config : Config B
  pub to_query : List (String × String) → String
  pub authenticate : Option String → Bool × Option RequestUser
  pub fetch : Fetch

-- A request to the gateway, as far as guards, interceptors and handlers read it.
pub record GatewayRequest (B : Type 0) : Type 0 where
  pub route : Route B
  pub token : Option String
  pub correlation_header : Option String

-- `request.headers[HEADERS.CORRELATION_ID] ?? crypto.randomUUID()`
unfoldable pub correlation_of : Option String → String → String
correlation_of none random_uuid = random_uuid
correlation_of (some id) random_uuid = id

module _ {B : Type 0} (env : Environment B) where
  -- The guards, then the correlation id, then the handler.
  unfoldable pub serve :
      String
      → GatewayRequest B
      → Exec HttpException (List (ServiceName × FetchRequest)) ProxyResponse
  unfolding guard_request handler_of correlation_of proxy
  serve random_uuid request requests =
      let handler = handler_of env.to_query request.route in
      elim (guard_request handler.is_public handler.required_roles env.authenticate request.token) [
        | err e ↦ throw e requests
        | ok user ↦
            proxy env.config env.fetch handler.service
              (handler.options user (some (correlation_of request.correlation_header random_uuid)))
              requests
      ]
