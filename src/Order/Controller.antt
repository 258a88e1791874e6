-- ===== src/Order/Controller.antt =====
-- orders.controller.ts. Ids and bodies have passed their pipes and DTOs; the query of `findAll` is
-- checked here.
use Prim.Native.String.{◌++◌ as ◌++ₛ◌}
use shop_microservices.Prelude.{ℕ, String, ◌==◌, Option, List, if◌then◌else◌}
use shop_microservices.Exec.{Exec, DataSource, throw}
use shop_microservices.Shared.Pages.{PageMeta, PaginationQuery, with_page}
use shop_microservices.Shared.Messages.{StockItem}
use shop_microservices.Http.{Thrown, http, unhandled, call, unauthorized, not_found, or_empty}
use shop_microservices.Order.Status.{OrderError, order_not_found}
use shop_microservices.Order.Persistence.Repositories.{Tables, Db}
use shop_microservices.Order.UseCases.{OrderResult, create_order, get_order, get_user_orders}

-- `if (e instanceof OrderNotFoundError) throw new NotFoundException(e.message)`
unfoldable pub when_order_not_found : OrderError → Thrown OrderError
when_order_not_found (order_not_found id) = http (not_found ("Order " ++ₛ (id ++ₛ " not found")))
when_order_not_found e = unhandled e

module _ (T : Tables) where
  abbrev pub Handling : Type 0 → Type 0
  Handling A = Exec (Thrown OrderError) (Db T) A

  -- `if (!userId) throw new UnauthorizedException('Missing user id')`
  abbrev pub for_user_id : {A : Type 0} → Option String → (String → Handling A) → Handling A
  for_user_id user_id handler =
      if or_empty user_id == ""
      then throw (http (unauthorized "Missing user id"))
      else handler (or_empty user_id)

  -- `create`; the gateway sends the email with the id.
  unfoldable pub handle_create_order :
      DataSource OrderError (Db T)
      → ℕ
      → List StockItem
      → Option String
      → String
      → Option String
      → Handling OrderResult
  unfolding create_order
  handle_create_order D now items user_id user_email correlation_id = for_user_id user_id λ user_id.
      call unhandled (
        create_order T D now (record {
          user_id = user_id;
          user_email = user_email;
          correlation_id = or_empty correlation_id;
          items = items;
        }))

  -- `findAll`
  unfoldable pub handle_user_orders :
      List String → PaginationQuery → Option String → Handling (List OrderResult × PageMeta)
  unfolding get_user_orders with_page
  handle_user_orders messages query user_id = with_page messages query λ page limit.
      for_user_id user_id λ user_id. call unhandled (get_user_orders T user_id page limit)

  -- `findById`
  unfoldable pub handle_get_order : String → Option String → Handling OrderResult
  unfolding get_order when_order_not_found
  handle_get_order id user_id =
      for_user_id user_id λ user_id. call when_order_not_found (get_order T id user_id)
