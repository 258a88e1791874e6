-- ===== src/Order/Orchestrator/Progress/Refinement.antt =====
-- The handlers implement the machine.
use mathlib.Core.Option
use shop_microservices.Prelude.{
  ℕ, String, ◌==◌, ◌≡◌, refl, sym, ◌∙◌, ap, false, Option, none, some, List, [], ◌∷◌, inl, inr,
  Option-cases, Bool-cases, eq_iff,
}
use shop_microservices.Exec.{DataSource}
use shop_microservices.Order.Status.{SagaStatus, OrderError, same_step, same_step_refl}
use shop_microservices.Order.Persistence.{SagaStateOrmEntity}
use shop_microservices.Order.Persistence.Repositories.{Tables, Db}
use shop_microservices.Order.Orchestrator.{
  stock_reserved, stock_reservation_failed, payment_processed, payment_failed, stock_released,
  SagaReply, on_reply, load_saga_for_step,
}
use shop_microservices.Order.Orchestrator.Loading.{Waiting}
use shop_microservices.Order.Orchestrator.Safety.{
  reply_order, reply_step, next_step, next_status, on_reply-Handled, on_reply_safe, replies,
}
use shop_microservices.Order.Orchestrator.Consistency.{
  IsConsistent, Moved, status_at, status_of_step,
}
use shop_microservices.Order.Orchestrator.Progress.{
  Progress, answer, answer_for, answers, saga_of, progress_of,
}
use shop_microservices.Order.Orchestrator.Progress.Rows.{
  progress_of-stored, progress_of-unmoved, Moved-progress, not_waiting,
}

answer-skips :
    (reply : SagaReply) (p : Progress)
    → same_step p.step (reply_step reply) ≡ false
    → answer reply p ≡ p
answer-skips (stock_reserved e) p h = rw h
answer-skips (stock_reservation_failed e) p h = rw h
answer-skips (payment_processed e) p h = rw h
answer-skips (payment_failed e) p h = rw h
answer-skips (stock_released e) p h = rw h

answer-moves :
    (reply : SagaReply) (p : Progress)
    → p.step ≡ reply_step reply
    → answer reply p ≡ record { step = next_step reply; status = next_status reply }
answer-moves (stock_reserved e) p h = rw (h, same_step_refl)
answer-moves (stock_reservation_failed e) p h = rw (h, same_step_refl)
answer-moves (payment_processed e) p h = rw (h, same_step_refl)
answer-moves (payment_failed e) p h = rw (h, same_step_refl)
answer-moves (stock_released e) p h = rw (h, same_step_refl)

reply_step-running : (reply : SagaReply) → status_of_step (reply_step reply) ≡ SagaStatus.running
reply_step-running (stock_reserved e) = refl
reply_step-running (stock_reservation_failed e) = refl
reply_step-running (payment_processed e) = refl
reply_step-running (payment_failed e) = refl
reply_step-running (stock_released e) = refl

map-same :
    (f : Progress → Progress) (o : Option Progress)
    → ((p : Progress) → o ≡ some p → f p ≡ p)
    → Option.map f o ≡ o
map-same f none h = refl
map-same f (some p) h = ap some (h p refl)

module _ (T : Tables) where
  -- An order with progress has a saga in its step.
  pub progress_of-step :
      (db : Db T) (order_id : String) (p : Progress)
      → progress_of T db order_id ≡ some p
      → (s : SagaStateOrmEntity) × (saga_of T db order_id ≡ some s) × (s.current_step ≡ p.step)
  progress_of-step db order_id p e = elim (Option-cases (saga_of T db order_id)) [
    | inl gone ↦ absurd (cc (rw (progress_of, gone) at e))
    | inr (s, found) ↦ elim (Option-cases (status_at T db.orders order_id)) [
      | inl gone ↦ absurd (cc (rw (progress_of, found, gone) at e))
      | inr (st, at) ↦ (s, found, cc (rw (progress_of, found, at) at e))
    ]
  ]

  -- A reply that found nobody waiting is one that the machine ignores.
  progress_of-ignored :
      (db : Db T) (reply : SagaReply) (order_id : String)
      → IsConsistent T db
      → load_saga_for_step T (reply_order reply) (reply_step reply) db ≡ none
      → Option.map (answer_for order_id reply) (progress_of T db order_id)
        ≡ progress_of T db order_id
  progress_of-ignored db reply order_id c none_waits =
      map-same (answer_for order_id reply) (progress_of T db order_id) λ p e.
        elim (Bool-cases (reply_order reply == order_id)) [
          | inr other ↦ rw (answer_for, other)
          | inl same ↦
              let (s, found, at) = progress_of-step db order_id p e in
              let about = (eq_iff (reply_order reply) order_id).0 same in
              let elsewhere =
                not_waiting T db order_id (reply_step reply) s c found
                  (ap (λ o. load_saga_for_step T o (reply_step reply) db) (sym about) ∙ none_waits)
                  (reply_step-running reply) in
              rw (answer_for, same)
                (answer-skips reply p
                  (ap (λ st. same_step st (reply_step reply)) (sym at) ∙ elsewhere))
        ]

  progress_of-answer_for :
      (db db' : Db T) (reply : SagaReply) (order_id : String) (s after : SagaStateOrmEntity)
      → IsConsistent T db
      → IsConsistent T db'
      → Waiting T db (reply_order reply) (reply_step reply) s
      → after.current_step ≡ next_step reply
      → Moved T db db' s after (next_status reply)
      → progress_of T db' order_id
        ≡ Option.map (answer_for order_id reply) (progress_of T db order_id)
  progress_of-answer_for db db' reply order_id s after c c' w next m =
      elim (Bool-cases (reply_order reply == order_id)) [
        | inl same ↦
            let of_order = w.of_order ∙ (eq_iff (reply_order reply) order_id).0 same in
            let t = c.tied s.id s w.stored in
            let before =
              progress_of-stored T db order_id s t.order_status c w.stored of_order
                (ap (status_at T db.orders) (sym of_order) ∙ t.found) in
            Moved-progress T db db' order_id s after (next_status reply) c' m of_order
            ∙ rw (
              before,
              same,
              answer-moves reply (record { step = s.current_step; status = t.order_status })
                  w.at_step,
              next,
            )
        | inr other ↦
            progress_of-unmoved T db db' order_id s after (next_status reply) c c' m
              (cc (w.of_order, other))
            ∙ sym (
                map-same (answer_for order_id reply) (progress_of T db order_id)
                  (λ p e. rw (answer_for, other)))
      ]

  -- In a consistent database a reply moves the order that it is about as the machine says, and no
  -- other order.
  pub on_reply-progress :
      (D : DataSource OrderError (Db T)) (now : ℕ) (db : Db T) (reply : SagaReply)
      (order_id : String)
      → IsConsistent T db
      → progress_of T (on_reply T D now reply db).1 order_id
        ≡ Option.map (answer_for order_id reply) (progress_of T db order_id)
  on_reply-progress D now db reply order_id c =
      let h = on_reply-Handled T D now db c reply in
      elim h.4 [
        | inl (none_waits, same) ↦
            ap (λ d. progress_of T d order_id) same
            ∙ sym (progress_of-ignored db reply order_id c none_waits)
        | inr (s, after, w, next, m) ↦
            progress_of-answer_for db (on_reply T D now reply db).1 reply order_id s after c h.1 w
              next m
      ]

  map-answers :
      (order_id : String) (now : ℕ) (reply : SagaReply) (rest : List (ℕ × SagaReply))
      (o : Option Progress)
      → Option.map (answers order_id rest) (Option.map (answer_for order_id reply) o)
        ≡ Option.map (answers order_id ((now, reply) ∷ rest)) o
  unfolding answers
  map-answers order_id now reply rest none = refl
  map-answers order_id now reply rest (some p) = refl

  map-answers-nil :
      (order_id : String) (o : Option Progress) → o ≡ Option.map (answers order_id []) o
  unfolding answers
  map-answers-nil order_id none = refl
  map-answers-nil order_id (some p) = refl

  -- The orchestrator implements the machine of an order: from a consistent database, after any
  -- replies about any orders, in any order, at any times and with any repetitions, the saga's step
  -- and the order's status are those to which the machine comes when it is driven by the replies
  -- about that order.
  pub replies-progress :
      (D : DataSource OrderError (Db T)) (events : List (ℕ × SagaReply)) (db : Db T)
      (order_id : String)
      → IsConsistent T db
      → progress_of T (replies T D events db) order_id
        ≡ Option.map (answers order_id events) (progress_of T db order_id)
  unfolding replies
  replies-progress D [] db order_id c = map-answers-nil order_id (progress_of T db order_id)
  replies-progress D ((now, reply) ∷ rest) db order_id c =
      replies-progress D rest (on_reply T D now reply db).1 order_id
        (on_reply_safe T D now db c reply).1
      ∙ ap (Option.map (answers order_id rest)) (on_reply-progress D now db reply order_id c)
      ∙ map-answers order_id now reply rest (progress_of T db order_id)
