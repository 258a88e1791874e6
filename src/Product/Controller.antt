-- ===== src/Product/Controller.antt =====
-- products.controller.ts. Ids and bodies have passed their pipes and DTOs; the query of `findAll` is
-- checked here.
pub mod Listing
use shop_microservices.Prelude.{ℕ, String, Option, List, if◌then◌else◌}
use shop_microservices.Exec.{Exec, DataSourceBeside, pure, throw, ◌>>=◌}
use shop_microservices.Shared.Pages.{PageMeta, PaginationQuery, with_page}
use shop_microservices.Shared.Messages.{StockItem}
use shop_microservices.Shared.Roles.{names_admin}
use shop_microservices.Http.{
  Thrown, http, unhandled, call, forbidden, not_found, bad_request, or_empty,
}
use shop_microservices.Product.Entity.{
  CreateProductInput, UpdateProductInput, ProductResult, ReservedItemResult, ProductError,
  product_not_found, insufficient_stock, error_message, Tables, Db, Cache,
}
use shop_microservices.Product.Service

-- `if (e instanceof ProductNotFoundError) throw new NotFoundException(e.message)`
unfoldable pub when_not_found : ProductError → Thrown ProductError
unfolding error_message
when_not_found (product_not_found id) = http (not_found (error_message (product_not_found id)))
when_not_found (insufficient_stock id required available) =
    unhandled (insufficient_stock id required available)

unfoldable pub when_refused : ProductError → Thrown ProductError
unfolding error_message
when_refused (product_not_found id) = http (not_found (error_message (product_not_found id)))
when_refused (insufficient_stock id required available) =
    http (bad_request (error_message (insufficient_stock id required available)))

module _ (T : Tables) (C : Cache) where
  abbrev pub Handling : Type 0 → Type 0
  Handling A = Exec (Thrown ProductError) (Db T × C.Store) A

  -- `requireAdmin(rolesHeader)`
  unfoldable pub require_admin : Option String → Handling (Unit {0})
  unfolding names_admin
  require_admin roles_header =
      if names_admin (or_empty roles_header)
      then pure tt
      else throw (http (forbidden "Admin role required"))

  -- `messages` is what class-validator says about a query that is refused.
  unfoldable pub handle_find_all :
      List String → PaginationQuery → Handling (List ProductResult × PageMeta)
  unfolding Service.find_all with_page
  handle_find_all messages query =
      with_page messages query λ page limit. call unhandled (Service.find_all T C page limit)

  unfoldable pub handle_find_by_id : String → Handling ProductResult
  unfolding Service.find_by_id when_not_found
  handle_find_by_id id = call when_not_found (Service.find_by_id T C id)

  unfoldable pub handle_create : ℕ → CreateProductInput → Option String → Handling ProductResult
  unfolding require_admin Service.create
  handle_create now dto roles_header =
      require_admin roles_header >>= λ _. call unhandled (Service.create T C now dto)

  unfoldable pub handle_update :
      ℕ → String → UpdateProductInput → Option String → Handling ProductResult
  unfolding require_admin Service.update when_not_found
  handle_update now id dto roles_header =
      require_admin roles_header >>= λ _. call when_not_found (Service.update T C now id dto)

  unfoldable pub handle_remove : ℕ → String → Option String → Handling (Unit {0})
  unfolding require_admin Service.remove when_not_found
  handle_remove now id roles_header =
      require_admin roles_header >>= λ _. call when_not_found (Service.remove T C now id)

  unfoldable pub handle_reserve :
      DataSourceBeside ProductError (Db T) C.Store
      → ℕ
      → List StockItem
      → Handling (List ReservedItemResult)
  unfolding Service.reserve_stock_own when_refused
  handle_reserve D now items = call when_refused (Service.reserve_stock_own T C D now items)
