-- ===== src/Order/Orchestrator/Examples.antt =====
-- The theorems of the orchestrator on concrete databases.
use shop_microservices.Prelude.{ℕ, ◌≤◌, ◌≡◌, ◌≢◌, refl, [], ◌∷◌, some, false}
use shop_microservices.Exec.{ok}
use shop_microservices.Repository.Memory.Rows.{find_one}
use shop_microservices.Order.Status.{SagaStep, SagaStatus}
use shop_microservices.Order.Persistence.Repositories.{Db}
use shop_microservices.Order.Examples.{
  source, tables, waiting_db, failed_db, waiting_db-IsConsistent, failed_db-IsConsistent, reserved,
  refused, saga_row,
}
use shop_microservices.Order.Orchestrator.{SagaReply, on_reply}
use shop_microservices.Order.Orchestrator.Progress.{progress_of, answers}
use shop_microservices.Order.Orchestrator.Progress.Refinement.{replies-progress}
use shop_microservices.Order.Orchestrator.Progress.Bound.{acts, acting, acting_at_most_three}
use mathlib.Core.Option
use shop_microservices.Order.Orchestrator.Loading.{Frame}
use shop_microservices.Order.Orchestrator.Consistency.{IsConsistent}
use shop_microservices.Order.Orchestrator.Safety.{
  reply_order, reply_step, on_reply_safe, answered_once, settled_saga_stays, replies,
}
use shop_microservices.Order.Orchestrator.Retry.{retry_stuck_sagas}
use shop_microservices.Order.Orchestrator.Retry.Safety.{retry_stuck_sagas_safe}

on_reply_safe_example :
    ((on_reply tables (source (Db tables)) 5 reserved waiting_db).0 ≡ ok tt)
    × IsConsistent tables (on_reply tables (source (Db tables)) 5 reserved waiting_db).1
    × Frame tables waiting_db
        (reply_order reserved)
        (reply_step reserved)
        (on_reply tables (source (Db tables)) 5 reserved waiting_db).1
on_reply_safe_example =
    on_reply_safe tables (source (Db tables)) 5 waiting_db waiting_db-IsConsistent reserved

answered_once_example :
    let db' = (on_reply tables (source (Db tables)) 5 reserved waiting_db).1 in
    on_reply tables (source (Db tables)) 6 refused db' ≡ (ok tt, db')
answered_once_example =
    answered_once tables (source (Db tables)) 5 6 waiting_db reserved refused
      waiting_db-IsConsistent refl refl

failed_ne_running : SagaStatus.failed ≢ SagaStatus.running
failed_ne_running h = cc h

settled_saga_stays_example :
    tables.sagas.find_one
      (replies tables (source (Db tables)) ((5, reserved) ∷ (6, refused) ∷ []) failed_db).sagas
      "s1"
    ≡ some (saga_row SagaStep.failed SagaStatus.failed)
unfolding find_one
settled_saga_stays_example =
    settled_saga_stays tables (source (Db tables)) ((5, reserved) ∷ (6, refused) ∷ []) failed_db
      "s1" (saga_row SagaStep.failed SagaStatus.failed) failed_db-IsConsistent refl
      failed_ne_running

retry_stuck_sagas_safe_example :
    let db' = retry_stuck_sagas tables (source (Db tables)) 40000 (λ id. false) false waiting_db in
    IsConsistent tables db' × (db'.orders ≡ waiting_db.orders)
retry_stuck_sagas_safe_example =
    retry_stuck_sagas_safe tables (source (Db tables)) 40000 (λ id. false) false waiting_db
      waiting_db-IsConsistent

replies-progress_example :
    progress_of tables
      (replies tables (source (Db tables)) ((5, reserved) ∷ (6, refused) ∷ []) waiting_db)
      "o1"
    ≡ Option.map
        (answers "o1" ((5, reserved) ∷ (6, refused) ∷ []))
        (progress_of tables waiting_db "o1")
replies-progress_example =
    replies-progress tables (source (Db tables)) ((5, reserved) ∷ (6, refused) ∷ []) waiting_db "o1"
      waiting_db-IsConsistent

acting_at_most_three_example :
    (acting tables (source (Db tables)) "o1" ((5, reserved) ∷ (6, refused) ∷ []) waiting_db ≤ 3)
    × ((now : ℕ) (reply : SagaReply)
        → reply_order reply ≡ "o1"
        → acts tables waiting_db "o1" reply ≡ false
        → on_reply tables (source (Db tables)) now reply waiting_db ≡ (ok tt, waiting_db))
acting_at_most_three_example =
    acting_at_most_three tables (source (Db tables)) "o1" ((5, reserved) ∷ (6, refused) ∷ [])
      waiting_db waiting_db-IsConsistent
