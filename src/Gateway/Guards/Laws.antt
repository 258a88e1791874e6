-- ===== src/Gateway/Guards/Laws.antt =====
-- What the two guards let through.
use shop_microservices.Prelude.{
  String, ◌≡◌, ap, Bool, true, false, Option, none, some, List, [], ◌∷◌, ◌⊎◌, inl, inr,
}
use shop_microservices.Exec.{ok, err}
use shop_microservices.Shared.{Role}
use shop_microservices.Http.{HttpException, RequestUser, unauthorized, forbidden}
use shop_microservices.Gateway.Guards.{
  includes, authenticate_request, has_role, check_roles, guard_request,
}

pub check_roles-allowed :
    (required : List Role) (user : RequestUser)
    → (required ≡ []) ⊎ (required ≡ Role.admin ∷ [])
    → (required ≡ []) ⊎ (includes Role.admin user.roles ≡ true)
    → check_roles required (some user) ≡ ok tt
unfolding check_roles
check_roles-allowed required user (inl e) allowed = rw e
check_roles-allowed required user (inr e) (inl e') = rw e'
check_roles-allowed required user (inr e) (inr admin) = rw (e, check_roles, has_role, admin)

module _ (required : List Role) (authenticate : Option String → Bool × Option RequestUser)
    (token : Option String) where
  pub guard_nobody :
      (authenticate token).1 ≡ none
      → guard_request false required authenticate token
        ≡ err (unauthorized "Invalid or missing token")
  unfolding guard_request
  guard_nobody h = rw (guard_request, authenticate_request, h)

  module _ (user : RequestUser) (known : authenticate token ≡ (false, some user)) where
    authenticated : authenticate_request false authenticate token ≡ ok (some user)
    unfolding authenticate_request
    authenticated = rw (authenticate_request, ap (λ p. p.1) known, ap (λ p. p.0) known)

    pub guard_passes :
        check_roles required (some user) ≡ ok tt
        → guard_request false required authenticate token ≡ ok (some user)
    unfolding guard_request
    guard_passes checked = rw (guard_request, authenticated, checked)

    pub guard_stops :
        (e : HttpException)
        → check_roles required (some user) ≡ err e
        → guard_request false required authenticate token ≡ err e
    unfolding guard_request
    guard_stops e checked = rw (guard_request, authenticated, checked)

pub check_roles-refused :
    (required : List Role) (user : RequestUser)
    → required ≡ Role.admin ∷ []
    → includes Role.admin user.roles ≡ false
    → check_roles required (some user) ≡ err (forbidden "Access denied. Required roles: admin")
unfolding check_roles
check_roles-refused required user e other = rw (e, check_roles, has_role, other)
