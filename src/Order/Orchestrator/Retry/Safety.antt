-- ===== src/Order/Orchestrator/Retry/Safety.antt =====
-- The retry timer keeps the orders and the sagas consistent, and gives up after `max_retries`.

use shop_microservices.Prelude.{
  ℕ, ◌≤◌, String, ◌&&◌, not, eq_iff, ◌≡◌, refl, ◌∙◌, ◌⊎◌, inl, inr, Bool, true, false, none, some,
  List, [], ◌∷◌, Option-cases, Bool-cases, arith, subst, sym,
}
use shop_microservices.Exec.{Result, ok, DataSource}
use shop_microservices.Order.Status.{OrderStatus, SagaStep, SagaStatus, OrderError, is_running}
use shop_microservices.Order.Entity.{Order}
use shop_microservices.Order.Saga
use shop_microservices.Order.Saga.{Saga, max_retries}
use shop_microservices.Order.Persistence.{
  OrderOrmEntity, SagaStateOrmEntity, order_to_domain, saga_to_domain,
}
use shop_microservices.Order.Persistence.Repositories.{
  Tables, Db, find_by_id_skip_locked, running_unlocked, find_stuck, update_saga, write, saga_patch,
}
use shop_microservices.Order.Orchestrator.Consistency.{
  IsConsistent, Agrees, status_of_step, moved-IsConsistent,
}
use shop_microservices.Order.Orchestrator.Loading.{saga-Moved, order_loaded}
use shop_microservices.Order.Orchestrator.Safety.{settled_ok}
use shop_microservices.Order.Orchestrator.Retry.{
  resend_command, retry_fresh, retry_body, retry_each, retry_stuck_sagas,
}

-- A row that the timer may work on.
pub record Retried (T : Tables) (db : Db T) (s : SagaStateOrmEntity) : Type 0 where
  pub stored : T.sagas.find_one db.sagas s.id ≡ some s
  pub is_live : s.status ≡ SagaStatus.running

module _ (T : Tables) (now : ℕ) where
  -- Resending touches the outbox alone.
  resend_ok :
      (step : SagaStep) (saga : Saga) (order : Order) (db : Db T)
      → (resend_command T now step saga order db
          ≡ (ok tt, record db { outbox = (resend_command T now step saga order db).1.outbox }))
  unfolding resend_command write
  resend_ok SagaStep.reserve_stock saga order db = refl
  resend_ok SagaStep.process_payment saga order db = refl
  resend_ok SagaStep.release_stock saga order db = refl
  resend_ok SagaStep.completed saga order db = refl
  resend_ok SagaStep.failed saga order db = refl

module _ (T : Tables) (db : Db T) where
  Retried-row :
      (id : String) (locked : Bool) (s : SagaStateOrmEntity)
      → T.sagas.find_one db.sagas id ≡ some s
      → (is_running s.status && not locked) ≡ true
      → Retried T db s
  unfolding is_running
  Retried-row id locked s e h = record {
    stored =
        subst (λ k. T.sagas.find_one db.sagas k ≡ some s)
          (sym (T.sagas.key-find_one db.sagas id s e)) e;
    is_live = ground arith;
  }

  fresh_cases :
      (is_locked : String → Bool) (id : String)
      → (find_by_id_skip_locked T is_locked id db ≡ none)
        ⊎ ((s : SagaStateOrmEntity) × Retried T db s
            × (find_by_id_skip_locked T is_locked id db ≡ some (saga_to_domain s)))
  unfolding find_by_id_skip_locked
  fresh_cases is_locked id = elim (Option-cases (T.sagas.find_one db.sagas id)) [
    | inl e ↦ inl (rw (e, running_unlocked))
    | inr (s, e) ↦ elim (Bool-cases (is_running s.status && not (is_locked id))) [
      | inl h ↦ inr (
        s,
        Retried-row id (is_locked id) s e h,
        rw (e, running_unlocked) (unfold is_running in rw h),
      )
      | inr h ↦ inl (rw (e, running_unlocked) (unfold is_running in rw h))
    ]
  ]

module _ (T : Tables) (now : ℕ) (db : Db T) (c : IsConsistent T db) where
  abbrev Kept : Result OrderError (Unit {0}) × Db T → Type 0
  Kept r = (r.0 ≡ ok tt) × IsConsistent T r.1 × (r.1.orders ≡ db.orders)

  -- The saga's row moves, and every order stays.
  saga_kept :
      (s : SagaStateOrmEntity) (saga : Saga) (db' : Db T)
      → Retried T db s
      → saga.id ≡ s.id
      → db'.orders ≡ db.orders
      → db'.sagas ≡ T.sagas.update db.sagas saga.id (saga_patch now saga)
      → ((o : OrderStatus) → Agrees s.current_step o → Agrees saga.current_step o)
      → saga.status ≡ status_of_step saga.current_step
      → saga.retry_count ≤ max_retries
      → IsConsistent T db'
  saga_kept s saga db' w id orders sagas agrees coherent bounded =
      let t = c.tied s.id s w.stored in
      moved-IsConsistent T db db' s (saga_patch now saga s) t.order_status
        (saga-Moved T now db db' s saga t.order_status w.stored id sagas
          (λ k. ground (arith, orders, t.found, eq_iff s.order_id k))
          (agrees t.order_status t.agrees) coherent bounded)
        c

  live_order :
      (s : SagaStateOrmEntity)
      → Retried T db s
      → (o : OrderOrmEntity) × (T.orders.find_one db.orders s.order_id ≡ some o)
  live_order s w = elim (Option-cases (T.orders.find_one db.orders s.order_id)) [
    | inl e ↦ absurd (cc (e, (c.tied s.id s w.stored).found))
    | inr found ↦ found
  ]

  give_up_effect :
      (saga : Saga)
      → Saga.has_exceeded_max_retries saga ≡ true
      → retry_fresh T now saga db ≡ update_saga T now (Saga.fail now saga "Max retries exceeded") db
  unfolding retry_fresh
  give_up_effect saga h = rw h

  pub retry_effect :
      (s : SagaStateOrmEntity) (o : OrderOrmEntity)
      → Saga.has_exceeded_max_retries (saga_to_domain s) ≡ false
      → T.orders.find_one db.orders s.order_id ≡ some o
      → retry_fresh T now (saga_to_domain s) db
        ≡ resend_command T now s.current_step
            (saga_to_domain s)
            (order_to_domain o)
            (update_saga T now (Saga.schedule_retry now (saga_to_domain s)) db).1
  unfolding retry_fresh update_saga saga_to_domain
  retry_effect s o h f = rw (
    h,
    order_loaded T s.order_id o
        (update_saga T now (Saga.schedule_retry now (saga_to_domain s)) db).1 f,
  )

  given_up-Kept :
      (s : SagaStateOrmEntity)
      → Retried T db s
      → Kept (update_saga T now (Saga.fail now (saga_to_domain s) "Max retries exceeded") db)
  unfolding update_saga Saga.fail saga_to_domain
  given_up-Kept s w = (
    refl,
    saga_kept s (Saga.fail now (saga_to_domain s) "Max retries exceeded") _ w refl refl refl
        (λ o a. tt) refl (c.tied s.id s w.stored).bounded,
    refl,
  )

  rescheduled :
      (s : SagaStateOrmEntity) (db' : Db T)
      → Retried T db s
      → Saga.has_exceeded_max_retries (saga_to_domain s) ≡ false
      → db'.orders ≡ db.orders
      → db'.sagas
        ≡ T.sagas.update db.sagas s.id (saga_patch now (Saga.schedule_retry now (saga_to_domain s)))
      → IsConsistent T db'
  unfolding Saga.schedule_retry saga_to_domain Saga.has_exceeded_max_retries
  rescheduled s db' w h orders sagas =
      saga_kept s (Saga.schedule_retry now (saga_to_domain s)) db' w refl orders sagas (λ o a. a)
        (c.tied s.id s w.stored).coherent (ground arith)

  retry_fresh-Kept :
      (s : SagaStateOrmEntity) → Retried T db s → Kept (retry_fresh T now (saga_to_domain s) db)
  retry_fresh-Kept s w = elim (Bool-cases (Saga.has_exceeded_max_retries (saga_to_domain s))) [
    | inl exceeded ↦ rw (give_up_effect (saga_to_domain s) exceeded) (given_up-Kept s w)
    | inr left ↦
        let (o, f) = live_order s w in
        rw
          (
            retry_effect s o left f,
            resend_ok T now s.current_step (saga_to_domain s) (order_to_domain o),
          )
          (unfold update_saga in
            (
              refl,
              rescheduled s _ w left refl (unfold Saga.schedule_retry saga_to_domain in refl),
              refl,
            ))
  ]

  retry_body-Kept :
      (is_locked : String → Bool) (id : String) → Kept (retry_body T now is_locked id db)
  unfolding retry_body
  retry_body-Kept is_locked id = elim (fresh_cases T db is_locked id) [
    | inl e ↦ rw e (refl, c, refl)
    | inr (s, w, e) ↦ rw e (retry_fresh-Kept s w)
  ]

module _ (T : Tables) (D : DataSource OrderError (Db T)) (now : ℕ) (is_locked : String → Bool) where
  transaction-Kept :
      (id : String) (db : Db T) (c : IsConsistent T db)
      → Kept T now db c (D.transaction (Unit {0}) (retry_body T now is_locked id) db)
  transaction-Kept id db c =
      let h = retry_body-Kept T now db c is_locked id in
      subst (Kept T now db c)
        (sym (
          D.transaction_lem (Unit {0}) (retry_body T now is_locked id) db
          ∙ settled_ok db (retry_body T now is_locked id db) h.0))
        h

  retry_each-Kept :
      (stuck : List Saga) (db : Db T)
      → IsConsistent T db
      → IsConsistent T (retry_each T D now is_locked stuck db)
        × ((retry_each T D now is_locked stuck db).orders ≡ db.orders)
  unfolding retry_each
  retry_each-Kept [] db c = (c, refl)
  retry_each-Kept (saga ∷ stuck) db c =
      let h = transaction-Kept saga.id db c in
      let rest =
        retry_each-Kept stuck (D.transaction (Unit {0}) (retry_body T now is_locked saga.id) db).1
          h.1 in
      (rest.0, rest.1 ∙ h.2)

  -- A run of the retry timer leaves a consistent database consistent, and so every retry count
  -- within `max_retries`, and changes no order, whichever rows are locked and whether or not the
  -- query for stuck sagas fails.
  pub retry_stuck_sagas_safe :
      (query_fails : Bool) (db : Db T)
      → IsConsistent T db
      → IsConsistent T (retry_stuck_sagas T D now is_locked query_fails db)
        × ((retry_stuck_sagas T D now is_locked query_fails db).orders ≡ db.orders)
  unfolding retry_stuck_sagas
  retry_stuck_sagas_safe true db c = (c, refl)
  retry_stuck_sagas_safe false db c = retry_each-Kept (find_stuck T now 10 db) db c
