-- ===== src/Order/Orchestrator/Loading.antt =====
-- How a handler finds its saga and its order, and what a move of one saga amounts to.
use shop_microservices.Prelude.{
  Bool, ◌&&◌, refl, ℕ, ◌≤◌, String, ◌==◌, eq_iff, eq_refl, ◌≡◌, refl, true, false, ◌⊎◌, none, some,
  Option-cases, Bool-cases, inl, inr, subst, sym, ◌∙◌, arith, if◌then◌else◌,
}
use shop_microservices.Exec.{ok}
use shop_microservices.Order.Status.{
  OrderStatus, SagaStep, SagaStatus, same_step, same_step-eq, same_step_refl, is_running,
}
use shop_microservices.Order.Saga
use shop_microservices.Order.Saga.{Saga, max_retries}
use shop_microservices.Order.Persistence.{
  OrderOrmEntity, SagaStateOrmEntity, order_to_domain, saga_to_domain,
}
use shop_microservices.Order.Persistence.Repositories.{
  Tables, Db, find_order, find_by_order_id_with_lock, saga_patch,
}
use shop_microservices.Order.Orchestrator.{load_saga_for_step, load_order}
use shop_microservices.Order.Orchestrator.Consistency.{
  IsConsistent, Moved, Agrees, status_at, status_of_step,
}

-- The row that a reply for `step` acts on.
pub record Waiting (T : Tables) (db : Db T) (order_id : String) (step : SagaStep)
    (s : SagaStateOrmEntity) : Type 0 where
  pub stored : T.sagas.find_one db.sagas s.id ≡ some s
  pub of_order : s.order_id ≡ order_id
  pub at_step : s.current_step ≡ step
  pub is_live : s.status ≡ SagaStatus.running

module _ (T : Tables) (db : Db T) where
  running-eq : (st : SagaStatus) → is_running st ≡ true → st ≡ SagaStatus.running
  unfolding is_running
  running-eq st h = ground arith

  Waiting-of_row :
      (order_id : String) (step : SagaStep) (s : SagaStateOrmEntity)
      → T.sagas.find_where db.sagas (λ r. r.order_id == order_id) ≡ some s
      → Saga.can_handle (saga_to_domain s) step ≡ true
      → Waiting T db order_id step s
  unfolding Saga.can_handle saga_to_domain
  Waiting-of_row order_id step s e h =
      let found = T.sagas.find_where_sound db.sagas (λ r. r.order_id == order_id) s e in
      record {
        stored = found.1;
        of_order = (eq_iff s.order_id order_id).0 found.0;
        at_step = same_step-eq s.current_step step (ground arith);
        is_live = running-eq s.status (ground arith);
      }

  -- A reply finds no saga that waits for it, and is ignored, or one row that does.
  pub loaded_cases :
      (order_id : String) (step : SagaStep)
      → (load_saga_for_step T order_id step db ≡ none)
        ⊎ ((s : SagaStateOrmEntity) × Waiting T db order_id step s
            × (load_saga_for_step T order_id step db ≡ some (saga_to_domain s)))
  unfolding load_saga_for_step find_by_order_id_with_lock
  loaded_cases order_id step =
      elim (Option-cases (T.sagas.find_where db.sagas (λ r. r.order_id == order_id))) [
        | inl e ↦ inl (rw e)
        | inr (s, e) ↦ elim (Bool-cases (Saga.can_handle (saga_to_domain s) step)) [
          | inl h ↦ inr (s, Waiting-of_row order_id step s e h, rw (e, h))
          | inr h ↦ inl (rw (e, h))
        ]
      ]

  stored_status :
      (i j : String) (st : OrderStatus) (o : OrderOrmEntity)
      → i ≡ j
      → status_at T db.orders i ≡ some st
      → T.orders.find_one db.orders j ≡ some o
      → st ≡ o.status
  stored_status i j st o h e f = ground arith

  -- The order of a waiting saga, in the status that its step asks for.
  pub order_of_Waiting :
      (order_id : String) (step : SagaStep) (s : SagaStateOrmEntity)
      → IsConsistent T db
      → Waiting T db order_id step s
      → (o : OrderOrmEntity) × (T.orders.find_one db.orders order_id ≡ some o)
        × Agrees step o.status
  order_of_Waiting order_id step s c w =
      let t = c.tied s.id s w.stored in
      elim (Option-cases (T.orders.find_one db.orders order_id)) [
        | inl e ↦ absurd (cc (e, w.of_order, t.found))
        | inr (o, e) ↦ (
          o,
          e,
          subst (Agrees step)
              (stored_status s.order_id order_id t.order_status o w.of_order t.found e)
              (subst (λ st. Agrees st t.order_status) w.at_step t.agrees),
        )
      ]

pub order_loaded :
    (T : Tables) (order_id : String) (o : OrderOrmEntity) (db : Db T)
    → T.orders.find_one db.orders order_id ≡ some o
    → load_order T order_id db ≡ (ok (order_to_domain o), db)
unfolding load_order find_order
order_loaded T order_id o db e = rw e

-- The saga of a row moves, and its order has a status that agrees.
module _ (T : Tables) (now : ℕ) (db : Db T) where
  pub saga-Moved :
      (db' : Db T) (s : SagaStateOrmEntity) (saga : Saga) (o : OrderStatus)
      → T.sagas.find_one db.sagas s.id ≡ some s
      → saga.id ≡ s.id
      → db'.sagas ≡ T.sagas.update db.sagas saga.id (saga_patch now saga)
      → ((k : String)
          → status_at T db'.orders k
            ≡ (if s.order_id == k then some o else status_at T db.orders k))
      → Agrees saga.current_step o
      → saga.status ≡ status_of_step saga.current_step
      → saga.retry_count ≤ max_retries
      → Moved T db db' s (saga_patch now saga s) o
  unfolding saga_patch
  saga-Moved db' s saga o stored id sagas orders agrees coherent bounded = record {
    stored = stored;
    same_order = refl;
    sagas = λ k. rw sagas (
        ground (
          arith,
          eq_iff s.id k,
          T.sagas.find_one-update db.sagas saga.id (saga_patch now saga) (λ r. refl) k,
          id,
        ));
    orders = orders;
    agrees = agrees;
    coherent = coherent;
    bounded = bounded;
  }

-- Once the row has left the step, no reply for that step finds it.
pub nobody_waits :
    (T : Tables) (db db' : Db T) (s after : SagaStateOrmEntity) (o : OrderStatus)
    (order_id : String) (step : SagaStep)
    → Moved T db db' s after o
    → IsConsistent T db'
    → s.order_id ≡ order_id
    → same_step after.current_step step ≡ false
    → load_saga_for_step T order_id step db' ≡ none
nobody_waits T db db' s after o order_id step m c' of_order left =
    elim (loaded_cases T db' order_id step) [
      | inl e ↦ e
      | inr (r, w, e) ↦
          let same =
            c'.one_saga r.id s.id r after w.stored (rw m.sagas (rw eq_refl))
              (w.of_order ∙ sym (m.same_order ∙ of_order)) in
          absurd (
            ground (
              arith,
              m.sagas r.id,
              eq_iff s.id r.id,
              w.stored,
              w.at_step,
              same,
              same_step_refl step,
            ))
    ]

-- The row is what a reply for `step` about the order asks for.
abbrev pub is_asked : String → SagaStep → SagaStateOrmEntity → Bool
is_asked order_id step s =
    is_running s.status && (same_step s.current_step step && s.order_id == order_id)

-- A reply touches no other saga, and the status of no other order.
pub record Frame (T : Tables) (db : Db T) (order_id : String) (step : SagaStep) (db' : Db T)
    : Type 0 where
  pub sagas :
      (k : String) (x : SagaStateOrmEntity)
      → T.sagas.find_one db.sagas k ≡ some x
      → is_asked order_id step x ≡ false
      → T.sagas.find_one db'.sagas k ≡ some x
  pub orders :
      (k : String) → (order_id == k) ≡ false → status_at T db'.orders k ≡ status_at T db.orders k

pub Frame-refl :
    (T : Tables) (db : Db T) (order_id : String) (step : SagaStep) → Frame T db order_id step db
Frame-refl T db order_id step = record { sagas = λ k x e h. e; orders = λ k h. refl }

Waiting-is_asked :
    {T : Tables} {db : Db T} (order_id : String) (step : SagaStep) (s : SagaStateOrmEntity)
    → Waiting T db order_id step s
    → is_asked order_id step s ≡ true
unfolding is_running
Waiting-is_asked order_id step s w =
    ground
      (arith, same_step_refl step, eq_iff s.order_id order_id, w.of_order, w.at_step, w.is_live)

pub Frame-Moved :
    (T : Tables) (db db' : Db T) (order_id : String) (step : SagaStep)
    (s after : SagaStateOrmEntity) (o : OrderStatus)
    → Waiting T db order_id step s
    → Moved T db db' s after o
    → Frame T db order_id step db'
Frame-Moved T db db' order_id step s after o w m = record {
  sagas = λ k x e h.
      ground (arith, m.sagas k, eq_iff s.id k, w.stored, Waiting-is_asked order_id step s w);
  orders = λ k h. ground (arith, m.orders k, eq_iff s.order_id k, eq_iff order_id k, w.of_order);
}

-- What a reply for `step` did: nothing where no saga of the order waited, or the move of the saga
-- that waited to the step `next`, with its order in `status`.
abbrev pub Moves : (T : Tables) → Db T → String → SagaStep → SagaStep → OrderStatus → Db T → Type 0
Moves T db order_id step next status db' =
    ((load_saga_for_step T order_id step db ≡ none) × (db' ≡ db))
    ⊎ ((s after : SagaStateOrmEntity) × Waiting T db order_id step s
        × (after.current_step ≡ next)
        × Moved T db db' s after status)
