-- ===== src/Gateway/Guards.antt =====
-- guards/jwt-auth.guard.ts and guards/roles.guard.ts, in the order in which app.module.ts installs
-- them. Passport with the strategy of jwt.strategy.ts is a parameter here: from the bearer token to
-- the user, if the token is valid.
pub mod Laws
use Prim.Native.String.{◌++◌ as ◌++ₛ◌}
use shop_microservices.Prelude.{
  String, Bool, true, false, ◌||◌, Option, none, some, List, [], ◌∷◌, if◌then◌else◌,
}
use shop_microservices.Exec.{ok, err}
use shop_microservices.Shared.{Role}
use shop_microservices.Shared.Roles.{role_name}
use shop_microservices.Http.{RequestUser, Answer, unauthorized, forbidden}

unfoldable pub same_role : Role → Role → Bool
same_role Role.user Role.user = true
same_role Role.admin Role.admin = true
same_role Role.moderator Role.moderator = true
same_role _ _ = false

unfoldable pub includes : Role → List Role → Bool
unfolding same_role
includes role [] = false
includes role (r ∷ roles) = same_role role r || includes role roles

-- `handleRequest(err, user)`
unfoldable pub handle_request : Bool → Option RequestUser → Answer RequestUser
handle_request failed none = err (unauthorized "Invalid or missing token")
handle_request failed (some user) =
    if failed then err (unauthorized "Invalid or missing token") else ok user

-- `JwtAuthGuard.canActivate`: on a public route no user is set. `authenticate` is passport's
-- answer to the token, an error or a user.
unfoldable pub authenticate_request :
    Bool → (Option String → Bool × Option RequestUser) → Option String → Answer (Option RequestUser)
unfolding handle_request
authenticate_request is_public authenticate token =
    if is_public
    then ok none
    else let (failed, found) = authenticate token in
      elim (handle_request failed found) [ ok user ↦ ok (some user) | err e ↦ err e ]

-- `requiredRoles.some((role) => user?.roles?.includes(role))`
unfoldable pub has_role : List Role → Option RequestUser → Bool
unfolding includes
has_role [] user = false
has_role (role ∷ required) none = has_role required none
has_role (role ∷ required) (some user) = includes role user.roles || has_role required (some user)

-- `requiredRoles.join(', ')`
unfoldable pub list_roles : List Role → String
unfolding role_name
list_roles [] = ""
list_roles (r ∷ []) = role_name r
list_roles (r ∷ s ∷ roles) = role_name r ++ₛ (", " ++ₛ list_roles (s ∷ roles))

-- `RolesGuard.canActivate`
unfoldable pub check_roles : List Role → Option RequestUser → Answer (Unit {0})
unfolding has_role list_roles
check_roles [] user = ok tt
check_roles (role ∷ required) user =
    if has_role (role ∷ required) user
    then ok tt
    else err (forbidden ("Access denied. Required roles: " ++ₛ list_roles (role ∷ required)))

-- Both guards: the user that the handler gets.
unfoldable pub guard_request :
    Bool
    → List Role
    → (Option String → Bool × Option RequestUser)
    → Option String
    → Answer (Option RequestUser)
unfolding authenticate_request check_roles
guard_request is_public required authenticate token =
    elim (authenticate_request is_public authenticate token) [
      | err e ↦ err e
      | ok user ↦ elim (check_roles required user) [ err e ↦ err e | ok _ ↦ ok user ]
    ]
