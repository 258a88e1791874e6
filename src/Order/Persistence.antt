-- ===== src/Order/Persistence.antt =====
-- order.orm-entity.ts, order-item.orm-entity.ts, saga-state.orm-entity.ts and the mappers
-- order.mapper.ts and saga.mapper.ts. The repositories over them are in Persistence/Repositories.
pub mod Repositories
pub mod Mapping
use shop_microservices.Prelude.{ℕ, suc, String, ◌==◌, Bool, Option, none, some, List, [], ◌∷◌, map}
use shop_microservices.Order.Status.{OrderStatus, SagaStep, SagaStatus}
use shop_microservices.Order.Entity.{Order, OrderItem}
use shop_microservices.Order.Saga.{Saga}

pub record OrderItemOrmEntity : Type 0 where
  pub id : String
  pub order_id : String
  pub product_id : String
  pub product_name : String
  pub quantity : ℕ
  pub unit_price : ℕ

-- A row of `orders` with the rows of `order_items` that belong to it, which the relation loads
-- eagerly. The column of the total is decimal(10,2), and int that of a quantity; the database refuses
-- what does not fit, a total from 10 ^ 10 cents on. The rows here are not bounded: what is shown of
-- them is about totals and quantities that fit.
pub record OrderOrmEntity : Type 0 where
  pub id : String
  pub user_id : String
  pub user_email : String
  pub status : OrderStatus
  pub total : ℕ
  pub items : List OrderItemOrmEntity
  pub created_at : ℕ
  pub updated_at : ℕ

pub record SagaStateOrmEntity : Type 0 where
  pub id : String
  pub order_id : String
  pub current_step : SagaStep
  pub status : SagaStatus
  pub retry_count : ℕ
  pub correlation_id : Option String
  pub last_error : Option String
  pub next_retry_at : Option ℕ
  pub created_at : ℕ
  pub updated_at : ℕ

unfoldable pub item_to_domain : OrderItemOrmEntity → OrderItem
item_to_domain i = record {
  id = i.id;
  product_id = i.product_id;
  product_name = i.product_name;
  quantity = i.quantity;
  unit_price = i.unit_price;
}

-- `OrderMapper`
unfoldable pub order_to_domain : OrderOrmEntity → Order
unfolding item_to_domain
order_to_domain orm = record {
  id = orm.id;
  user_id = orm.user_id;
  user_email = orm.user_email;
  status = orm.status;
  total = orm.total;
  items = map item_to_domain orm.items;
  created_at = orm.created_at;
  updated_at = orm.updated_at;
}

-- The columns that the database generates on the insert: ids and times.
unfoldable pub item_to_orm : String → (ℕ → String) → ℕ → List OrderItem → List OrderItemOrmEntity
item_to_orm order_id item_ids n [] = []
item_to_orm order_id item_ids n (item ∷ items) =
    record {
      id = item_ids n;
      order_id = order_id;
      product_id = item.product_id;
      product_name = item.product_name;
      quantity = item.quantity;
      unit_price = item.unit_price;
    }
    ∷ item_to_orm order_id item_ids (suc n) items

unfoldable pub order_to_orm : ℕ → String → (ℕ → String) → Order → OrderOrmEntity
unfolding item_to_orm
order_to_orm now id item_ids order = record {
  id = id;
  user_id = order.user_id;
  user_email = order.user_email;
  status = order.status;
  total = order.total;
  items = item_to_orm id item_ids 0 order.items;
  created_at = now;
  updated_at = now;
}

-- `SagaMapper`
-- `value ?? ''`
abbrev pub or_empty : Option String → String
or_empty none = ""
or_empty (some text) = text

unfoldable pub saga_to_domain : SagaStateOrmEntity → Saga
saga_to_domain orm = record {
  id = orm.id;
  order_id = orm.order_id;
  correlation_id = or_empty orm.correlation_id;
  current_step = orm.current_step;
  status = orm.status;
  retry_count = orm.retry_count;
  last_error = orm.last_error;
  next_retry_at = orm.next_retry_at;
  created_at = orm.created_at;
  updated_at = orm.updated_at;
}

unfoldable pub saga_to_orm : ℕ → String → Saga → SagaStateOrmEntity
saga_to_orm now id saga = record {
  id = id;
  order_id = saga.order_id;
  current_step = saga.current_step;
  status = saga.status;
  retry_count = saga.retry_count;
  correlation_id = some saga.correlation_id;
  last_error = saga.last_error;
  next_retry_at = saga.next_retry_at;
  created_at = now;
  updated_at = now;
}
