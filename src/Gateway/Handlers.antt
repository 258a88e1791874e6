-- ===== src/Gateway/Handlers.antt =====
-- The handlers of the proxy controllers of modules/proxy: what their decorators say, and what they
-- pass to the proxy service of the user and the correlation id that they get.
pub mod Auth
pub mod Users
pub mod Products
pub mod Orders
pub mod Payments
use Prim.Native.String.{◌++◌ as ◌++ₛ◌}
use shop_microservices.Prelude.{
  String, ◌==◌, Bool, true, false, Option, none, some, List, [], ◌∷◌, ◌++◌, if◌then◌else◌,
}
use shop_microservices.Shared.{Role}
use shop_microservices.Http.{RequestUser}
use shop_microservices.Gateway.Proxy.{ServiceName, ProxyRequestOptions}

pub record RouteHandler (B : Type 0) : Type 0 where
  -- `@Public()`
  pub is_public : Bool
  -- `@Roles(…)`
  pub required_roles : List Role
  -- Which of `proxyToAuth` to `proxyToPayments` is called.
  pub service : ServiceName
  pub options : Option RequestUser → Option String → ProxyRequestOptions B

-- A handler that passes its user on, to a path that may depend on the user.
abbrev pub for_user :
    {B : Type 0}
    → List Role
    → ServiceName
    → String
    → (Option RequestUser → String)
    → Option B
    → RouteHandler B
for_user required_roles service method path body = record {
  is_public = false;
  required_roles = required_roles;
  service = service;
  options = λ user correlation_id. record {
    method = method;
    path = path user;
    body = body;
    user = user;
    correlation_id = correlation_id;
    headers = [];
  };
}

-- A public handler, which takes no user.
abbrev pub for_anyone : {B : Type 0} → ServiceName → String → String → Option B → RouteHandler B
for_anyone service method path body = record {
  is_public = true;
  required_roles = [];
  service = service;
  options = λ user correlation_id. record {
    method = method;
    path = path;
    body = body;
    user = none;
    correlation_id = correlation_id;
    headers = [];
  };
}

abbrev pub admins : List Role
admins = Role.admin ∷ []

-- `if (value) qs.set(name, value)`
unfoldable pub query_pair : String → Option String → List (String × String)
query_pair name none = []
query_pair name (some value) = if value == "" then [] else (name, value) ∷ []

-- The path of a list; `to_query` is `URLSearchParams.toString`.
unfoldable pub list_path :
    (List (String × String) → String) → String → Option String → Option String → String
unfolding query_pair
list_path to_query base page limit =
    let query = to_query (query_pair "page" page ++ query_pair "limit" limit) in
    if query == "" then base else base ++ₛ ("?" ++ₛ query)

-- `user.id`; the guard has set a user on every route that is not public.
abbrev pub id_of : Option RequestUser → String
id_of none = ""
id_of (some user) = user.id
