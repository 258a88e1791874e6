-- ===== src/Gateway/Routes/Proxied.antt =====
-- The handlers differ only in their decorators, service, method, path and body.
use shop_microservices.Gateway.Handlers.{RouteHandler, for_user, for_anyone, admins}
use shop_microservices.Prelude.{
  if◌then◌else◌, String, ◌≡◌, refl, Option, none, List, [], ◌∷◌, ◌⊎◌, inl, inr,
}
use shop_microservices.Shared.{Role}
use shop_microservices.Http.{RequestUser}
use shop_microservices.Gateway.Proxy.{ProxyRequestOptions, ServiceName}
use shop_microservices.Gateway.Routes.{Route, handler_of}

-- What every handler has in common.
pub record IsProxied {B : Type 0} (handler : RouteHandler B) : Type 0 where
  pub for_all_or_admins : (handler.required_roles ≡ []) ⊎ (handler.required_roles ≡ Role.admin ∷ [])
  pub passes_user_on :
      (user : Option RequestUser) (correlation_id : Option String)
      → ProxyRequestOptions.user (handler.options user correlation_id)
        ≡ (if handler.is_public then none else user)
  pub adds_no_header :
      (user : Option RequestUser) (correlation_id : Option String)
      → ProxyRequestOptions.headers (handler.options user correlation_id) ≡ []
  pub passes_id_on :
      (user : Option RequestUser) (correlation_id : Option String)
      → ProxyRequestOptions.correlation_id (handler.options user correlation_id) ≡ correlation_id

module _ {B : Type 0} where
  plain :
      (service : ServiceName) (method path : String) (body : Option B)
      → IsProxied (for_anyone service method path body)
  plain service method path body = record {
    for_all_or_admins = inl refl;
    passes_user_on = λ user id. refl;
    adds_no_header = λ user id. refl;
    passes_id_on = λ user id. refl;
  }

  personal :
      (service : ServiceName) (method : String) (path : Option RequestUser → String)
      (body : Option B)
      → IsProxied (for_user [] service method path body)
  personal service method path body = record {
    for_all_or_admins = inl refl;
    passes_user_on = λ user id. refl;
    adds_no_header = λ user id. refl;
    passes_id_on = λ user id. refl;
  }

  administrative :
      (service : ServiceName) (method : String) (path : Option RequestUser → String)
      (body : Option B)
      → IsProxied (for_user admins service method path body)
  administrative service method path body = record {
    for_all_or_admins = inr refl;
    passes_user_on = λ user id. refl;
    adds_no_header = λ user id. refl;
    passes_id_on = λ user id. refl;
  }

  pub handler_of-IsProxied :
      (to_query : List (String × String) → String) (route : Route B)
      → IsProxied (handler_of to_query route)
  unfolding handler_of
  handler_of-IsProxied to_query (Route.login body) = plain _ _ _ _
  handler_of-IsProxied to_query (Route.register body) = plain _ _ _ _
  handler_of-IsProxied to_query (Route.refresh body) = plain _ _ _ _
  handler_of-IsProxied to_query Route.logout = personal _ _ _ _
  handler_of-IsProxied to_query (Route.list_users page limit) = administrative _ _ _ _
  handler_of-IsProxied to_query Route.get_me = personal _ _ _ _
  handler_of-IsProxied to_query (Route.get_user id) = personal _ _ _ _
  handler_of-IsProxied to_query (Route.update_user id body) = personal _ _ _ _
  handler_of-IsProxied to_query (Route.delete_user id) = administrative _ _ _ _
  handler_of-IsProxied to_query (Route.list_products page limit) = personal _ _ _ _
  handler_of-IsProxied to_query (Route.get_product id) = personal _ _ _ _
  handler_of-IsProxied to_query (Route.create_product body) = administrative _ _ _ _
  handler_of-IsProxied to_query (Route.update_product id body) = administrative _ _ _ _
  handler_of-IsProxied to_query (Route.remove_product id) = administrative _ _ _ _
  handler_of-IsProxied to_query (Route.create_order body) = personal _ _ _ _
  handler_of-IsProxied to_query (Route.list_orders page limit) = personal _ _ _ _
  handler_of-IsProxied to_query (Route.get_order id) = personal _ _ _ _
  handler_of-IsProxied to_query Route.get_my_wallet = personal _ _ _ _
  handler_of-IsProxied to_query (Route.get_wallet user_id) = administrative _ _ _ _
  handler_of-IsProxied to_query (Route.top_up user_id body) = administrative _ _ _ _
