-- ===== src/Order/UseCases.antt =====
-- create-order.use-case.ts, get-order.use-case.ts and get-user-orders.use-case.ts.
pub mod Creation
use shop_microservices.Prelude.{
  ℕ, ◌+◌, ◌-◌, ◌*◌, ◌/◌, ◌==◌, String, Option, none, some, List, map, if◌then◌else◌,
}
use shop_microservices.Shared.{KafkaTopic}
use shop_microservices.Shared.Pages.{PageMeta, page_meta}
use shop_microservices.Shared.Messages.{StockItem, Payload}
use shop_microservices.Exec.{DataSource, gets, throw, pure, ◌>>=◌, ◌>>◌}
use shop_microservices.Order.Status.{OrderStatus, OrderError, order_not_found}
use shop_microservices.Order.Entity
use shop_microservices.Order.Entity.{Order, OrderItem}
use shop_microservices.Order.Saga
use shop_microservices.Order.Persistence.{order_to_domain}
use shop_microservices.Order.Persistence.Repositories.{
  Tables, Db, Action, find_order, save_order, save_saga, write,
}

pub record CreateOrderInput : Type 0 where
  pub user_id : String
  pub user_email : String
  pub correlation_id : String
  pub items : List StockItem

pub record OrderItemResult : Type 0 where
  pub id : String
  pub product_id : String
  pub product_name : String
  pub quantity : ℕ
  pub unit_price : ℕ

pub record OrderResult : Type 0 where
  pub id : String
  pub user_id : String
  pub user_email : String
  pub status : OrderStatus
  pub total : ℕ
  pub items : List OrderItemResult
  pub created_at : ℕ
  pub updated_at : ℕ

unfoldable pub item_result : OrderItem → OrderItemResult
item_result i = record {
  id = i.id;
  product_id = i.product_id;
  product_name = i.product_name;
  quantity = i.quantity;
  unit_price = i.unit_price;
}

unfoldable pub to_result : Order → OrderResult
unfolding item_result
to_result order = record {
  id = order.id;
  user_id = order.user_id;
  user_email = order.user_email;
  status = order.status;
  total = order.total;
  items = map item_result order.items;
  created_at = order.created_at;
  updated_at = order.updated_at;
}

module _ (T : Tables) where
  unfoldable pub reserve_command : String → String → CreateOrderInput → Payload
  reserve_command saga_id order_id input = Payload.reserve_stock (record {
    base = record {
      command_id = saga_id;
      order_id = order_id;
      correlation_id = input.correlation_id;
    };
    items = input.items;
  })

  unfoldable pub create_body : ℕ → CreateOrderInput → Action T OrderResult
  unfolding save_order save_saga Entity.create Saga.create write reserve_command to_result
  create_body now input =
      save_order T now (Entity.create now input.user_id input.user_email input.items) >>= λ order.
      save_saga T now (Saga.create now order.id input.correlation_id) >>= λ saga.
      write T now order.id KafkaTopic.reserve_stock order.id
        (reserve_command saga.id order.id input)
      >> pure (to_result order)

  -- `CreateOrderUseCase.execute`
  unfoldable pub create_order :
      DataSource OrderError (Db T) → ℕ → CreateOrderInput → Action T OrderResult
  unfolding create_body
  create_order D now input = D.transaction OrderResult (create_body now input)

  -- `!order || order.userId !== userId`
  unfoldable pub owned_by : String → Option Order → Option Order
  owned_by user_id none = none
  owned_by user_id (some order) = if order.user_id == user_id then some order else none

  -- `GetOrderUseCase.execute`
  unfoldable pub get_order : String → String → Action T OrderResult
  unfolding find_order owned_by to_result
  get_order id user_id db = elim (owned_by user_id (find_order T id db)) [
    | none ↦ throw (order_not_found id) db
    | some order ↦ pure (to_result order) db
  ]

  unfoldable pub find_by_user : String → ℕ → ℕ → Db T → List Order × ℕ
  unfolding order_to_domain
  find_by_user user_id page limit db =
      let found =
        T.orders.find_and_count db.orders (λ o. o.user_id == user_id) ((page - 1) * limit) limit in
      (map order_to_domain found.0, found.1)

  -- `GetUserOrdersUseCase.execute`
  unfoldable pub get_user_orders : String → ℕ → ℕ → Action T (List OrderResult × PageMeta)
  unfolding find_by_user to_result page_meta
  get_user_orders user_id page limit = gets λ db.
      let found = find_by_user user_id page limit db in
      (map to_result found.0, page_meta page limit found.1)
