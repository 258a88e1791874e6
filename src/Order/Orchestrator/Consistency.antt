-- ===== src/Order/Orchestrator/Consistency.antt =====
-- The invariant that ties the sagas to the orders.
use mathlib.Core.Option
use shop_microservices.Prelude.{
  ℕ, ◌≤◌, String, ◌==◌, eq_iff, ◌≡◌, refl, false, Option, some, List, [], ◌∷◌, Bool-cases, inl, inr,
  subst, arith, if◌then◌else◌,
}
use shop_microservices.Order.Status.{OrderStatus, SagaStep, SagaStatus}
use shop_microservices.Order.Entity.{Order, OrderItem}
use shop_microservices.Order.Saga.{max_retries}
use shop_microservices.Order.Persistence.{OrderOrmEntity, SagaStateOrmEntity}
use shop_microservices.Order.Persistence.Repositories.{
  Tables, Db, update_order, update_items, order_patch, item_patch,
}

-- The status that belongs to each step.
abbrev pub status_of_step : SagaStep → SagaStatus
status_of_step SagaStep.reserve_stock = SagaStatus.running
status_of_step SagaStep.process_payment = SagaStatus.running
status_of_step SagaStep.release_stock = SagaStatus.running
status_of_step SagaStep.completed = SagaStatus.completed
status_of_step SagaStep.failed = SagaStatus.failed

-- The order that a saga in a step belongs to. A failed saga may leave the order in any status but
-- COMPLETED: cancelled by the compensation, or as it was when the retries ran out.
abbrev pub Agrees : SagaStep → OrderStatus → Type 0
Agrees SagaStep.reserve_stock o = o ≡ OrderStatus.pending
Agrees SagaStep.process_payment o = o ≡ OrderStatus.confirmed
Agrees SagaStep.release_stock o = o ≡ OrderStatus.confirmed
Agrees SagaStep.completed o = o ≡ OrderStatus.confirmed
Agrees SagaStep.failed o = Unit

-- The status of the order with an id, if there is one.
abbrev pub status_at : (T : Tables) → T.orders.Table → String → Option OrderStatus
status_at T t k = Option.map (λ (o : OrderOrmEntity). o.status) (T.orders.find_one t k)

-- One saga row against the orders: its order exists and the two agree.
pub record Tied (T : Tables) (orders : T.orders.Table) (s : SagaStateOrmEntity) : Type 0 where
  pub order_status : OrderStatus
  pub found : status_at T orders s.order_id ≡ some order_status
  pub agrees : Agrees s.current_step order_status
  pub coherent : s.status ≡ status_of_step s.current_step
  pub bounded : s.retry_count ≤ max_retries

pub record IsConsistent (T : Tables) (db : Db T) : Type 0 where
  pub tied :
      (k : String) (s : SagaStateOrmEntity)
      → T.sagas.find_one db.sagas k ≡ some s
      → Tied T db.orders s
  pub one_saga :
      (j k : String) (r s : SagaStateOrmEntity)
      → T.sagas.find_one db.sagas j ≡ some r
      → T.sagas.find_one db.sagas k ≡ some s
      → r.order_id ≡ s.order_id
      → j ≡ k

-- What an update of an order does to the statuses of all orders.
module _ (T : Tables) where
  status_at-update_item :
      (t : T.orders.Table) (i : OrderItem) (k : String)
      → status_at T (T.items.update_item t i.id (item_patch i)) k ≡ status_at T t k
  status_at-update_item t i k = ground (arith, T.items.find_one-update_item t i.id (item_patch i) k)

  pub status_at-update_items :
      (items : List OrderItem) (t : T.orders.Table) (k : String)
      → status_at T (update_items T items t) k ≡ status_at T t k
  unfolding update_items
  status_at-update_items [] t k = refl
  status_at-update_items (i ∷ items) t k = ground (
    arith,
    status_at-update_item t i k,
    status_at-update_items items t k,
    status_at-update_items items (T.items.update_item t i.id (item_patch i)) k,
  )

  pub status_at-update_order :
      (now : ℕ) (o : Order) (db : Db T) (k : String)
      → status_at T (update_order T now o db).1.orders k ≡ (
          if o.id == k
          then Option.map (λ _. o.status) (status_at T db.orders k)
          else status_at T db.orders k)
  unfolding update_order order_patch
  status_at-update_order now o db k = ground (
    arith,
    status_at-update_items o.items (T.orders.update db.orders o.id (order_patch now o)) k,
    T.orders.find_one-update db.orders o.id (order_patch now o) (λ r. refl) k,
  )

-- One saga row and the status of its order have changed, and nothing else has that the invariant
-- reads.
pub record Moved (T : Tables) (db db' : Db T) (before after : SagaStateOrmEntity)
    (order_status : OrderStatus) : Type 0 where
  pub stored : T.sagas.find_one db.sagas before.id ≡ some before
  pub same_order : after.order_id ≡ before.order_id
  pub sagas :
      (k : String)
      → T.sagas.find_one db'.sagas k
        ≡ (if before.id == k then some after else T.sagas.find_one db.sagas k)
  pub orders :
      (k : String)
      → status_at T db'.orders k
        ≡ (if before.order_id == k then some order_status else status_at T db.orders k)
  pub agrees : Agrees after.current_step order_status
  pub coherent : after.status ≡ status_of_step after.current_step
  pub bounded : after.retry_count ≤ max_retries

module _ (T : Tables) (db db' : Db T) (before after : SagaStateOrmEntity) (o : OrderStatus)
    (m : Moved T db db' before after o) (c : IsConsistent T db) where
  moved_row : Tied T db'.orders after
  moved_row = record {
    order_status = o;
    found = ground (arith, m.orders after.order_id, eq_iff before.order_id after.order_id);
    agrees = m.agrees;
    coherent = m.coherent;
    bounded = m.bounded;
  }

  other_row :
      (k : String) (s : SagaStateOrmEntity)
      → T.sagas.find_one db.sagas k ≡ some s
      → (before.id == k) ≡ false
      → Tied T db'.orders s
  other_row k s e ne =
      let t = c.tied k s e in
      record {
        order_status = t.order_status;
        found = ground (
          arith,
          m.orders s.order_id,
          eq_iff before.order_id s.order_id,
          eq_iff before.id k,
          c.one_saga before.id k before s m.stored e,
        );
        agrees = t.agrees;
        coherent = t.coherent;
        bounded = t.bounded;
      }

  pub moved-IsConsistent : IsConsistent T db'
  moved-IsConsistent = record {
    tied = λ k s e. elim (Bool-cases (before.id == k)) [
      | inl same ↦ subst (Tied T db'.orders) (ground (arith, m.sagas k)) moved_row
      | inr other ↦ other_row k s (ground (arith, m.sagas k)) other
    ];
    one_saga = λ j k r s e f h. ground (
      arith,
      m.sagas j,
      m.sagas k,
      eq_iff before.id j,
      eq_iff before.id k,
      c.one_saga j k r s,
      c.one_saga before.id k before s,
      c.one_saga j before.id r before,
    );
  }
