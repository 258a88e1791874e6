-- ===== src/Order/Persistence/Repositories.antt =====
-- typeorm-order.repository.ts, typeorm-saga.repository.ts and typeorm-outbox.repository.ts over the
-- tables of orders_db.
use mathlib.Core.Option
use shop_microservices.Prelude.{
  ℕ, String, ◌==◌, ◌≡◌, Bool, false, ◌&&◌, not, Option, none, some, List, [], ◌∷◌, map, leb,
  if◌then◌else◌,
}
use shop_microservices.Shared.{KafkaTopic}
use shop_microservices.Shared.Messages.{Payload}
use shop_microservices.Repository.{Repository, Unique, Patch}
use shop_microservices.Exec.{Exec, pure, throw, modify}
use shop_microservices.Outbox
use shop_microservices.Outbox.{OutboxRepository}
use shop_microservices.Order.Status.{OrderError, query_failed, is_running}
use shop_microservices.Order.Entity.{Order, OrderItem}
use shop_microservices.Order.Saga.{Saga}
use shop_microservices.Order.Persistence.{
  OrderOrmEntity, OrderItemOrmEntity, SagaStateOrmEntity, order_to_domain, order_to_orm,
  saga_to_domain, saga_to_orm,
}

abbrev pub order_key : OrderOrmEntity → String
order_key r = r.id

abbrev pub saga_key : SagaStateOrmEntity → String
saga_key r = r.id

abbrev pub same_order : SagaStateOrmEntity → SagaStateOrmEntity → Bool
same_order a b = a.order_id == b.order_id

-- The items of an order after a patch of the item row `id`.
abbrev pub patch_items :
    String → Patch OrderItemOrmEntity → List OrderItemOrmEntity → List OrderItemOrmEntity
patch_items id f [] = []
patch_items id f (i ∷ items) = (if i.id == id then f i else i) ∷ patch_items id f items

abbrev pub with_items :
    (List OrderItemOrmEntity → List OrderItemOrmEntity) → OrderOrmEntity → OrderOrmEntity
with_items f o = record o { items = f o.items }

-- What the service relies on of the table `order_items`, seen through the eager relation.
pub record ItemTable (R : Repository OrderOrmEntity order_key) : Type 0 where
  pub update_item : R.Table → String → Patch OrderItemOrmEntity → R.Table
  pub find_one-update_item :
      (t : R.Table) (id : String) (f : Patch OrderItemOrmEntity) (k : String)
      → R.find_one (update_item t id f) k
        ≡ Option.map (with_items (patch_items id f)) (R.find_one t k)
  -- The uuid of the n-th item row that an insert adds.
  pub generate_item : R.Table → ℕ → String
  pub generate_item-ne-empty : (t : R.Table) (n : ℕ) → (generate_item t n == "") ≡ false

-- The database of order-service.
pub record Tables : Type 1 where
  pub orders : Repository OrderOrmEntity order_key
  pub items : ItemTable orders
  pub sagas : Repository SagaStateOrmEntity saga_key
  pub unique_order : Unique sagas same_order
  pub outbox : OutboxRepository

pub record Db (T : Tables) : Type 0 where
  pub orders : T.orders.Table
  pub sagas : T.sagas.Table
  pub outbox : T.outbox.Table

-- The columns that `TypeOrmOrderRepository.update` writes; the update time is the database's.
unfoldable pub order_patch : ℕ → Order → Patch OrderOrmEntity
order_patch now order row = record row {
  status = order.status;
  total = order.total;
  updated_at = now;
}

unfoldable pub item_patch : OrderItem → Patch OrderItemOrmEntity
item_patch item row = record row { product_name = item.product_name; unit_price = item.unit_price }

-- The columns that `TypeOrmSagaRepository.update` writes.
unfoldable pub saga_patch : ℕ → Saga → Patch SagaStateOrmEntity
saga_patch now saga row = record row {
  current_step = saga.current_step;
  status = saga.status;
  retry_count = saga.retry_count;
  last_error = saga.last_error;
  next_retry_at = saga.next_retry_at;
  updated_at = now;
}

module _ (T : Tables) where
  abbrev pub Action : Type 0 → Type 0
  Action A = Exec OrderError (Db T) A

  -- `TypeOrmOrderRepository`
  unfoldable pub find_order : String → Db T → Option Order
  unfolding order_to_domain
  find_order id db = Option.map order_to_domain (T.orders.find_one db.orders id)

  unfoldable pub save_order : ℕ → Order → Action Order
  unfolding order_to_domain order_to_orm
  save_order now order db =
      let row =
        order_to_orm now (T.orders.generate db.orders) (T.items.generate_item db.orders) order in
      pure (order_to_domain row) (record db { orders = T.orders.save db.orders row })

  unfoldable pub update_items : List OrderItem → T.orders.Table → T.orders.Table
  unfolding item_patch
  update_items [] t = t
  update_items (item ∷ items) t =
      update_items items
        (if item.id == "" then t else T.items.update_item t item.id (item_patch item))

  unfoldable pub update_order : ℕ → Order → Action (Unit {0})
  unfolding order_patch update_items
  update_order now order = modify λ db. record db {
    orders = update_items order.items (T.orders.update db.orders order.id (order_patch now order));
  }

  -- `TypeOrmSagaRepository`
  unfoldable pub find_by_order_id_with_lock : String → Db T → Option Saga
  unfolding saga_to_domain
  find_by_order_id_with_lock order_id db =
      Option.map saga_to_domain (T.sagas.find_where db.sagas (λ r. r.order_id == order_id))

  -- `status = 'running'`, SKIP LOCKED
  unfoldable pub running_unlocked : Bool → Option SagaStateOrmEntity → Option Saga
  unfolding saga_to_domain is_running
  running_unlocked locked none = none
  running_unlocked locked (some r) =
      if is_running r.status && not locked then some (saga_to_domain r) else none

  -- A row that another transaction has locked is skipped: `is_locked` says which those are.
  unfoldable pub find_by_id_skip_locked : (String → Bool) → String → Db T → Option Saga
  unfolding running_unlocked
  find_by_id_skip_locked is_locked id db =
      running_unlocked (is_locked id) (T.sagas.find_one db.sagas id)

  -- `status = 'running' AND nextRetryAt <= now`
  unfoldable pub is_stuck : ℕ → SagaStateOrmEntity → Bool
  unfolding is_running
  is_stuck now r =
      is_running r.status && elim r.next_retry_at [ none ↦ false | some at ↦ leb at now ]

  unfoldable pub find_stuck : ℕ → ℕ → Db T → List Saga
  unfolding saga_to_domain is_stuck
  find_stuck now limit db =
      map saga_to_domain (T.sagas.find_many db.sagas (is_stuck now) (λ _. 0) limit)

  unfoldable pub save_saga : ℕ → Saga → Action Saga
  unfolding saga_to_domain saga_to_orm
  save_saga now saga db =
      let row = saga_to_orm now (T.sagas.generate db.sagas) saga in
      elim (T.unique_order.insert db.sagas row) [
        | none ↦ throw query_failed db
        | some sagas ↦ pure (saga_to_domain row) (record db { sagas = sagas })
      ]

  unfoldable pub update_saga : ℕ → Saga → Action (Unit {0})
  unfolding saga_patch
  update_saga now saga =
      modify λ db. record db { sagas = T.sagas.update db.sagas saga.id (saga_patch now saga) }

  -- `TypeOrmOutboxRepository.write`
  unfoldable pub write : ℕ → String → KafkaTopic → String → Payload → Action (Unit {0})
  write now aggregate_id topic key payload = modify λ db. record db {
    outbox = Outbox.write T.outbox now aggregate_id topic key payload db.outbox;
  }
