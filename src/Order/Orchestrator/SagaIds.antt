-- ===== src/Order/Orchestrator/SagaIds.antt =====
-- An order keeps its saga, under the id that its commands are made of.
use shop_microservices.Prelude.{
  ℕ, String, ◌==◌, ◌≡◌, sym, subst, some, inl, inr, arith, eq_iff, Bool-cases,
}
use shop_microservices.Exec.{DataSource}
use shop_microservices.Order.Status.{OrderStatus, OrderError}
use shop_microservices.Order.Persistence.{SagaStateOrmEntity}
use shop_microservices.Order.Persistence.Repositories.{Tables, Db}
use shop_microservices.Order.Orchestrator.{SagaReply, on_reply}
use shop_microservices.Order.Orchestrator.Consistency.{IsConsistent, Moved}
use shop_microservices.Order.Orchestrator.Safety.{on_reply-Handled}

-- The saga with this id is that of the order.
abbrev pub HasSaga : (T : Tables) → Db T → String → String → Type 0
HasSaga T db order_id id =
    (s : SagaStateOrmEntity) × (T.sagas.find_one db.sagas id ≡ some s) × (s.order_id ≡ order_id)

module _ (T : Tables) where
  HasSaga-Moved :
      (db db' : Db T) (order_id id : String) (s after : SagaStateOrmEntity) (status : OrderStatus)
      → Moved T db db' s after status
      → HasSaga T db order_id id
      → HasSaga T db' order_id id
  HasSaga-Moved db db' order_id id s after status m (r, stored, of_order) =
      elim (Bool-cases (s.id == id)) [
        | inl same ↦ (
          after,
          rw (m.sagas id, same),
          ground (arith, m.same_order, m.stored, stored, (eq_iff s.id id).0 same, of_order),
        )
        | inr other ↦ (r, rw (m.sagas id, other) stored, of_order)
      ]

  pub on_reply-HasSaga :
      (D : DataSource OrderError (Db T)) (now : ℕ) (db : Db T) (reply : SagaReply)
      (order_id id : String)
      → IsConsistent T db
      → HasSaga T db order_id id
      → HasSaga T (on_reply T D now reply db).1 order_id id
  on_reply-HasSaga D now db reply order_id id c has = elim (on_reply-Handled T D now db c reply).4 [
    | inl (none_waits, same) ↦ subst (λ d. HasSaga T d order_id id) (sym same) has
    | inr (s, after, w, next, m) ↦
        HasSaga-Moved db (on_reply T D now reply db).1 order_id id s after _ m has
  ]
