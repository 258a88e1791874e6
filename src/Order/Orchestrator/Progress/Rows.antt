-- ===== src/Order/Orchestrator/Progress/Rows.antt =====
-- The progress of an order after a move of a saga.

use shop_microservices.Prelude.{
  String, ◌==◌, ◌≡◌, sym, ◌∙◌, ap, false, none, some, inl, inr, arith, Option-cases, Bool-cases,
  eq_refl, eq_iff,
}
use shop_microservices.Order.Status.{
  OrderStatus, SagaStep, SagaStatus, same_step, same_step-eq, is_running,
}
use shop_microservices.Order.Saga
use shop_microservices.Order.Persistence.{SagaStateOrmEntity, saga_to_domain}
use shop_microservices.Order.Persistence.Repositories.{Tables, Db, find_by_order_id_with_lock}
use shop_microservices.Order.Orchestrator.{load_saga_for_step}
use shop_microservices.Order.Orchestrator.Consistency.{
  IsConsistent, Moved, status_at, status_of_step,
}
use shop_microservices.Order.Orchestrator.Progress.{saga_of, progress_of, both}

module _ (T : Tables) where
  pub saga_of-stored :
      (db : Db T) (order_id : String) (s : SagaStateOrmEntity)
      → IsConsistent T db
      → T.sagas.find_one db.sagas s.id ≡ some s
      → s.order_id ≡ order_id
      → saga_of T db order_id ≡ some s
  saga_of-stored db order_id s c stored of_order = elim (Option-cases (saga_of T db order_id)) [
    | inl gone ↦ absurd (
        cc (
          T.sagas.find_where_complete db.sagas (λ r. r.order_id == order_id) s.id s gone stored,
          (eq_iff s.order_id order_id).1 of_order,
        ))
    | inr (r, found) ↦
        let (same, stored') =
          T.sagas.find_where_sound db.sagas (λ r. r.order_id == order_id) r found in
        let ids =
          c.one_saga r.id s.id r s stored' stored
            ((eq_iff r.order_id order_id).0 same ∙ sym of_order) in
        found ∙ sym stored' ∙ ap (T.sagas.find_one db.sagas) ids ∙ stored
  ]

  pub progress_of-stored :
      (db : Db T) (order_id : String) (s : SagaStateOrmEntity) (status : OrderStatus)
      → IsConsistent T db
      → T.sagas.find_one db.sagas s.id ≡ some s
      → s.order_id ≡ order_id
      → status_at T db.orders order_id ≡ some status
      → progress_of T db order_id ≡ some (record { step = s.current_step; status = status })
  progress_of-stored db order_id s status c stored of_order found =
      rw (progress_of, saga_of-stored db order_id s c stored of_order, found)

  -- An order that no reply was about keeps its saga.
  saga_of-Moved :
      (db db' : Db T) (order_id : String) (s after : SagaStateOrmEntity) (status : OrderStatus)
      → IsConsistent T db
      → IsConsistent T db'
      → Moved T db db' s after status
      → s.order_id == order_id ≡ false
      → saga_of T db' order_id ≡ saga_of T db order_id
  saga_of-Moved db db' order_id s after status c c' m other =
      elim (Option-cases (saga_of T db order_id)) [
        | inr (r, found) ↦
            let (same, stored) =
              T.sagas.find_where_sound db.sagas (λ x. x.order_id == order_id) r found in
            saga_of-stored db' order_id r c'
              (ground (arith, m.sagas r.id, eq_iff s.id r.id, m.stored, stored, same, other))
              ((eq_iff r.order_id order_id).0 same)
            ∙ sym found
        | inl gone ↦ elim (Option-cases (saga_of T db' order_id)) [
          | inl gone' ↦ gone' ∙ sym gone
          | inr (r, found) ↦
              let (same, stored) =
                T.sagas.find_where_sound db'.sagas (λ x. x.order_id == order_id) r found in
              absurd (
                ground (
                  arith,
                  m.sagas r.id,
                  m.same_order,
                  other,
                  same,
                  stored,
                  T.sagas.find_where_complete db.sagas (λ x. x.order_id == order_id) r.id r gone,
                ))
        ]
      ]

  pub progress_of-unmoved :
      (db db' : Db T) (order_id : String) (s after : SagaStateOrmEntity) (status : OrderStatus)
      → IsConsistent T db
      → IsConsistent T db'
      → Moved T db db' s after status
      → s.order_id == order_id ≡ false
      → progress_of T db' order_id ≡ progress_of T db order_id
  progress_of-unmoved db db' order_id s after status c c' m other =
      ap (λ x. both x (status_at T db'.orders order_id))
        (saga_of-Moved db db' order_id s after status c c' m other)
      ∙ ap (both (saga_of T db order_id)) (rw (m.orders order_id, other))

  pub Moved-progress :
      (db db' : Db T) (order_id : String) (s after : SagaStateOrmEntity) (status : OrderStatus)
      → IsConsistent T db'
      → Moved T db db' s after status
      → s.order_id ≡ order_id
      → progress_of T db' order_id ≡ some (record { step = after.current_step; status = status })
  Moved-progress db db' order_id s after status c' m of_order =
      let stored : T.sagas.find_one db'.sagas s.id ≡ some after = rw (m.sagas s.id, eq_refl s.id) in
      let id = T.sagas.key-find_one db'.sagas s.id after stored in
      progress_of-stored db' order_id after status c' (ap (T.sagas.find_one db'.sagas) id ∙ stored)
        (m.same_order ∙ of_order) (rw (m.orders order_id, (eq_iff s.order_id order_id).1 of_order))

  -- A saga that does not wait for a step is in another one.
  pub not_waiting :
      (db : Db T) (order_id : String) (step : SagaStep) (s : SagaStateOrmEntity)
      → IsConsistent T db
      → saga_of T db order_id ≡ some s
      → load_saga_for_step T order_id step db ≡ none
      → status_of_step step ≡ SagaStatus.running
      → same_step s.current_step step ≡ false
  unfolding load_saga_for_step find_by_order_id_with_lock saga_to_domain Saga.can_handle is_running
  not_waiting db order_id step s c found none_waits live =
      elim (Bool-cases (same_step s.current_step step)) [
        | inr other ↦ other
        | inl same ↦
            let (_, stored) =
              T.sagas.find_where_sound db.sagas (λ x. x.order_id == order_id) s found in
            let runs : s.status ≡ SagaStatus.running =
              (c.tied s.id s stored).coherent
              ∙ ap status_of_step (same_step-eq s.current_step step same)
              ∙ live in
            absurd (
              cc (
                rw (load_saga_for_step, find_by_order_id_with_lock, found, runs, same) at
                  none_waits))
      ]
