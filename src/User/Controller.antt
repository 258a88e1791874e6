-- ===== src/User/Controller.antt =====
-- users.controller.ts. Bodies have passed their DTOs; the headers are as they came, and the query of
-- `findAll` is checked here.
use shop_microservices.Prelude.{ℕ, String, Option, List}
use shop_microservices.Exec.{Exec}
use shop_microservices.Shared.Pages.{PageMeta, PaginationQuery, with_page}
use shop_microservices.Shared.Roles.{parse_roles}
use shop_microservices.Http
use shop_microservices.Http.{Thrown, http, unhandled, call, or_empty}
use shop_microservices.User.{
  UpdateProfileInput, ProfileResult, UserError, not_found, forbidden, unique_violation, Tables,
  find_all, find_by_id, update, remove,
}

-- The exceptions of the service are HTTP exceptions already.
unfoldable pub thrown : UserError → Thrown UserError
thrown (not_found message) = http (Http.not_found message)
thrown (forbidden message) = http (Http.forbidden message)
thrown unique_violation = unhandled unique_violation

module _ (T : Tables) where
  abbrev pub Handling : Type 0 → Type 0
  Handling A = Exec (Thrown UserError) T.profiles.Table A

  -- `findAll`
  unfoldable pub list_users :
      List String → PaginationQuery → Option String → Handling (List ProfileResult × PageMeta)
  unfolding thrown find_all parse_roles with_page
  list_users messages query roles_header =
      with_page messages query
        λ page limit. call thrown (find_all T page limit (parse_roles (or_empty roles_header)))

  unfoldable pub get_user : String → Option String → Option String → Handling ProfileResult
  unfolding thrown find_by_id parse_roles
  get_user id requester_id roles_header =
      call thrown (find_by_id T id (or_empty requester_id) (parse_roles (or_empty roles_header)))

  unfoldable pub update_user :
      ℕ → String → UpdateProfileInput → Option String → Option String → Handling ProfileResult
  unfolding thrown update parse_roles
  update_user now id dto requester_id roles_header =
      call thrown
        (update T now id dto (or_empty requester_id) (parse_roles (or_empty roles_header)))

  unfoldable pub delete_user : ℕ → String → Option String → Handling (Unit {0})
  unfolding thrown remove parse_roles
  delete_user now id roles_header =
      call thrown (remove T now id (parse_roles (or_empty roles_header)))
