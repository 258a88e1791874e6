-- ===== src/Gateway/Routes/Examples.antt =====
-- Ana is a customer, Bob an administrator; both ask for a wallet to be topped up.
use shop_microservices.Prelude.{String, ◌≡◌, refl, false, none, some, [], ◌∷◌, inr}
use shop_microservices.Exec.{ok, err}
use shop_microservices.Shared.{Role}
use shop_microservices.Http.{Json, RequestUser, HttpException}
use shop_microservices.Gateway.Guards.{includes}
use shop_microservices.Gateway.Proxy.{service_name, Fetch}
use shop_microservices.Gateway.Routes.{Route, handler_of, Environment, GatewayRequest, serve}
use shop_microservices.Gateway.Routes.Safety.{serve_refuses}

abbrev ana : RequestUser
ana = record { id = "u1"; email = "ana@shop.test"; roles = Role.user ∷ [] }

abbrev bob : RequestUser
bob = record { id = "u2"; email = "bob@shop.test"; roles = Role.user ∷ Role.admin ∷ [] }

abbrev found : Fetch
found service request = ok (record {
  status = 201;
  content_length = none;
  status_text = "Created";
  json = some Json.other;
})

abbrev environment : RequestUser → Environment String
environment user = record {
  config = record {
    service_url = service_name;
    internal_secret = "s3cret";
    stringify = λ body. body;
  };
  to_query = λ pairs. "";
  authenticate = λ token. (false, some user);
  fetch = found;
}

abbrev top_up : GatewayRequest String
top_up = record {
  route = Route.top_up "u1" (some "{}");
  token = some "t";
  correlation_header = none;
}

serve_refuses_example :
    (e : HttpException) × (e.status ≡ 403) × (serve (environment ana) "c1" top_up [] ≡ (err e, []))
unfolding handler_of includes
serve_refuses_example =
    serve_refuses (environment ana) "c1" top_up [] 403 refl (inr (refl, (ana, refl, refl, refl)))
