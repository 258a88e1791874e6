-- ===== src/Order/UseCases/Creation.antt =====
-- Creating an order starts a consistent saga for it.
use shop_microservices.Prelude.{
  ℕ, String, ◌==◌, true, false, none, some, ◌≡◌, refl, sym, ap, subst, arith, eq_iff, eq_refl,
  Bool-cases, Option-cases, inl, inr, ◌∙◌, if◌then◌else◌,
}
use mathlib.Core.Option
use shop_microservices.Shared.{KafkaTopic}
use shop_microservices.Shared.Messages.{Payload}
use shop_microservices.Exec.{ok, DataSource}
use shop_microservices.Outbox
use shop_microservices.Order.Status.{OrderStatus, SagaStep, OrderError}
use shop_microservices.Order.Entity
use shop_microservices.Order.Saga
use shop_microservices.Order.Persistence.{
  OrderOrmEntity, SagaStateOrmEntity, order_to_orm, saga_to_orm, saga_to_domain, order_to_domain,
}
use shop_microservices.Order.Persistence.Repositories.{Tables, Db, save_order, save_saga, write}
use shop_microservices.Order.Orchestrator.Consistency.{IsConsistent, Tied, status_at}
use shop_microservices.Order.UseCases.{
  CreateOrderInput, OrderResult, to_result, reserve_command, create_body, create_order,
}

module _ (T : Tables) (now : ℕ) (input : CreateOrderInput) (db : Db T) where
  abbrev pub order_row : OrderOrmEntity
  order_row =
      order_to_orm now (T.orders.generate db.orders) (T.items.generate_item db.orders)
        (Entity.create now input.user_id input.user_email input.items)

  abbrev pub saga_row : SagaStateOrmEntity
  saga_row =
      saga_to_orm now (T.sagas.generate db.sagas)
        (Saga.create now (T.orders.generate db.orders) input.correlation_id)

  abbrev pub created : Db T
  created = record {
    orders = T.orders.save db.orders order_row;
    sagas = T.sagas.save db.sagas saga_row;
    outbox =
        Outbox.write T.outbox now (T.orders.generate db.orders) KafkaTopic.reserve_stock
          (T.orders.generate db.orders)
          (reserve_command T (T.sagas.generate db.sagas) (T.orders.generate db.orders) input)
          db.outbox;
  }

  -- No saga belongs to an order that is not there yet.
  unused :
      IsConsistent T db
      → (k : String) (s : SagaStateOrmEntity) → T.sagas.find_one db.sagas k ≡ some s
      → (T.orders.generate db.orders == s.order_id) ≡ false
  unused c k s stored = elim (Bool-cases (T.orders.generate db.orders == s.order_id)) [
    | inr h ↦ h
    | inl h ↦ absurd (
        cc (
          (c.tied k s stored).found,
          ap (Option.map (λ (o : OrderOrmEntity). o.status)) (
              subst (λ i. T.orders.find_one db.orders i ≡ none)
                ((eq_iff (T.orders.generate db.orders) s.order_id).0 h)
                (T.orders.find_one-generate db.orders)),
        ))
  ]

  pub create_body_lem :
      IsConsistent T db
      → create_body T now input db ≡ (ok (to_result (order_to_domain order_row)), created)
  unfolding create_body save_order save_saga write saga_to_orm saga_to_domain order_to_orm
      order_to_domain Saga.create
  create_body_lem c = elim (Option-cases (T.unique_order.insert db.sagas saga_row)) [
    | inl refused ↦
        let (r, stored, clashes) = T.unique_order.insert_none db.sagas saga_row refused in
        absurd (cc (clashes, unused c r.id r stored))
    | inr (sagas, accepted) ↦ rw (
      create_body,
      save_order,
      save_saga,
      accepted,
      T.unique_order.insert_some db.sagas sagas saga_row accepted,
    )
  ]

  pub status_at-created :
      (k : String)
      → status_at T created.orders k ≡ (
          if T.orders.generate db.orders == k
          then some OrderStatus.pending
          else status_at T db.orders k)
  unfolding order_to_orm Entity.create
  status_at-created k = ground (arith, T.orders.find_one-save db.orders order_row k)

  new_saga : Tied T created.orders saga_row
  unfolding saga_to_orm Saga.create
  new_saga = record {
    order_status = OrderStatus.pending;
    found =
        rw (status_at-created (T.orders.generate db.orders), eq_refl (T.orders.generate db.orders))
          refl;
    agrees = refl;
    coherent = refl;
    bounded = omega arith;
  }

  new_row :
      (k : String) (s : SagaStateOrmEntity)
      → T.sagas.find_one created.sagas k ≡ some s
      → (T.sagas.generate db.sagas == k) ≡ true
      → saga_row ≡ s
  unfolding saga_to_orm
  new_row k s e same = cc (rw same at (T.sagas.find_one-save db.sagas saga_row k), e)

  old_row :
      (k : String) (s : SagaStateOrmEntity)
      → T.sagas.find_one created.sagas k ≡ some s
      → (T.sagas.generate db.sagas == k) ≡ false
      → T.sagas.find_one db.sagas k ≡ some s
  unfolding saga_to_orm
  old_row k s e other = ground (arith, e, other, T.sagas.find_one-save db.sagas saga_row k)

  other_saga :
      IsConsistent T db
      → (k : String) (s : SagaStateOrmEntity) → T.sagas.find_one db.sagas k ≡ some s
      → Tied T created.orders s
  other_saga c k s stored =
      let t = c.tied k s stored in
      record {
        order_status = t.order_status;
        found = rw (status_at-created s.order_id, unused c k s stored) t.found;
        agrees = t.agrees;
        coherent = t.coherent;
        bounded = t.bounded;
      }

  no_other :
      IsConsistent T db
      → (j k : String) (r s : SagaStateOrmEntity) → saga_row ≡ r
      → T.sagas.find_one db.sagas k ≡ some s
      → r.order_id ≡ s.order_id
      → ⊥
  unfolding saga_to_orm Saga.create
  no_other c j k r s row stored same = cc (
    unused c k s stored,
    (eq_iff (T.orders.generate db.orders) s.order_id).1 (ap (λ x. x.order_id) row ∙ same),
  )

  pub created-IsConsistent : IsConsistent T db → IsConsistent T created
  unfolding saga_to_orm Saga.create
  created-IsConsistent c = record {
    tied = λ k s e. elim (Bool-cases (T.sagas.generate db.sagas == k)) [
      | inl same ↦ subst (Tied T created.orders) (new_row k s e same) new_saga
      | inr other ↦ other_saga c k s (old_row k s e other)
    ];
    one_saga = λ j k r s e f h. elim (Bool-cases (T.sagas.generate db.sagas == j)) [
      | inl a ↦ elim (Bool-cases (T.sagas.generate db.sagas == k)) [
        | inl b ↦
            sym ((eq_iff (T.sagas.generate db.sagas) j).0 a)
            ∙ (eq_iff (T.sagas.generate db.sagas) k).0 b
        | inr b ↦ absurd (no_other c j k r s (new_row j r e a) (old_row k s f b) h)
      ]
      | inr a ↦ elim (Bool-cases (T.sagas.generate db.sagas == k)) [
        | inl b ↦ absurd (no_other c k j s r (new_row k s f b) (old_row j r e a) (sym h))
        | inr b ↦ c.one_saga j k r s (old_row j r e a) (old_row k s f b) h
      ]
    ];
  }

  -- The order that a create call has left, and the saga and the command that it has started.
  abbrev pub Started : OrderResult → Db T → Type 0
  Started order db' =
      (T.orders.find_one db.orders order.id ≡ none)
      × (status_at T db'.orders order.id ≡ some OrderStatus.pending)
      × ((saga : SagaStateOrmEntity) × (T.sagas.find_one db'.sagas saga.id ≡ some saga)
          × (saga.order_id ≡ order.id)
          × (saga.current_step ≡ SagaStep.reserve_stock)
          × (db'.outbox
              ≡ Outbox.write T.outbox now order.id KafkaTopic.reserve_stock order.id
                  (Payload.reserve_stock (record {
                    base = record {
                      command_id = saga.id;
                      order_id = order.id;
                      correlation_id = input.correlation_id;
                    };
                    items = input.items;
                  }))
                  db.outbox))

  pub created-Started : Started (to_result (order_to_domain order_row)) created
  unfolding to_result order_to_domain order_to_orm saga_to_orm Saga.create reserve_command
  created-Started = (
    T.orders.find_one-generate db.orders,
    rw (status_at-created (T.orders.generate db.orders), eq_refl (T.orders.generate db.orders))
        refl,
    (
      saga_row,
      rw
          (
            T.sagas.find_one-save db.sagas saga_row (T.sagas.generate db.sagas),
            eq_refl (T.sagas.generate db.sagas),
          )
          refl,
      refl,
      refl,
      refl,
    ),
  )

-- The call succeeds, keeps the database consistent and starts the saga.
abbrev pub Creates :
    (T : Tables) → DataSource OrderError (Db T) → ℕ → CreateOrderInput → Db T → Type 0
Creates T D now input db =
    (order : OrderResult) × (db' : Db T) × (create_order T D now input db ≡ (ok order, db'))
    × IsConsistent T db'
    × Started T now input db order db'

-- In a consistent database creating an order succeeds and leaves the database consistent: the order
-- is new and pending, its saga waits for the stock, and the one row added to the outbox holds the
-- reserve command with the saga's id, the order's id and exactly the ordered items.
pub create_order_starts :
    (T : Tables) (D : DataSource OrderError (Db T)) (now : ℕ) (input : CreateOrderInput) (db : Db T)
    → IsConsistent T db
    → Creates T D now input db
unfolding create_order
create_order_starts T D now input db c = (
  to_result (order_to_domain (order_row T now input db)),
  created T now input db,
  rw (create_order, D.transaction_lem, create_body_lem T now input db c),
  created-IsConsistent T now input db c,
  created-Started T now input db,
)
