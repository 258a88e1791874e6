-- ===== src/Gateway/Proxy/Identity.antt =====
-- What a service reads of the headers that the proxy sends.
use mathlib.Core.Option
use shop_microservices.Prelude.{
  String, ◌==◌, eq_refl, ◌≡◌, refl, true, false, Option, none, some, [], ◌∷◌, ◌++◌, inl, inr,
  Bool-cases,
}
use shop_microservices.Exec.{ok}
use shop_microservices.Shared.Roles.{join_roles, parse_roles}
use shop_microservices.Shared.Roles.Laws.{parse_roles-join_roles}
use shop_microservices.Shared.InternalGuard.{can_activate}
use shop_microservices.Http.{
  RequestUser, Headers, get_header, user_id_header, user_email_header, user_roles_header,
  internal_secret_header,
}
use shop_microservices.Gateway.Proxy.{
  Config, content_type_headers, correlation_headers, user_headers,
}

-- A service sees the gateway's secret and this user in the headers.
pub record Identifies (secret : String) (user : RequestUser) (headers : Headers) : Type 0 where
  pub passes_guard : can_activate true false secret headers ≡ ok tt
  pub names_user : get_header user_id_header headers ≡ some user.id
  pub names_email : get_header user_email_header headers ≡ some user.email
  pub names_roles : Option.map parse_roles (get_header user_roles_header headers) ≡ some user.roles

module _ {B : Type 0} (config : Config B) (user : RequestUser)
    (secret_given : (config.internal_secret == "") ≡ false) where
  abbrev pub sent_with : Option B → String → Headers
  sent_with body correlation_id =
      content_type_headers body
      ++ ((internal_secret_header, config.internal_secret)
          ∷ (correlation_headers (some correlation_id) ++ (user_headers (some user) ++ [])))

  identified :
      (headers : Headers)
      → get_header internal_secret_header headers ≡ some config.internal_secret
      → get_header user_id_header headers ≡ some user.id
      → get_header user_email_header headers ≡ some user.email
      → get_header user_roles_header headers ≡ some (join_roles user.roles)
      → Identifies config.internal_secret user headers
  unfolding can_activate
  identified headers secret id email roles = record {
    passes_guard = rw (can_activate, secret, secret_given, eq_refl);
    names_user = id;
    names_email = email;
    names_roles = rw (roles, parse_roles-join_roles);
  }

  pub Identifies-sent_with :
      (body : Option B) (correlation_id : String)
      → Identifies config.internal_secret user (sent_with body correlation_id)
  unfolding content_type_headers correlation_headers user_headers get_header
  Identifies-sent_with none correlation_id = elim (Bool-cases (correlation_id == "")) [
    | inl empty ↦ rw (correlation_headers, empty) (identified _ refl refl refl refl)
    | inr given ↦ rw (correlation_headers, given) (identified _ refl refl refl refl)
  ]
  Identifies-sent_with (some body) correlation_id = elim (Bool-cases (correlation_id == "")) [
    | inl empty ↦ rw (correlation_headers, empty) (identified _ refl refl refl refl)
    | inr given ↦ rw (correlation_headers, given) (identified _ refl refl refl refl)
  ]
