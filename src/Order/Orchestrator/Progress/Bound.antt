-- ===== src/Order/Orchestrator/Progress/Bound.antt =====
-- How often an order can move.
use mathlib.Core.Option
use shop_microservices.Prelude.{
  ℕ, ◌+◌, ◌≤◌, String, ◌==◌, Bool, true, false, ◌&&◌, Option, none, some, List, [], ◌∷◌, ◌≡◌, sym,
  ◌∙◌, ap, inl, inr, arith, Bool-cases, Option-cases, eq_iff,
}
use shop_microservices.Exec.{ok, DataSource}
use shop_microservices.Order.Status.{SagaStep, OrderError, same_step, same_step-eq, same_step_refl}
use shop_microservices.Order.Persistence.Repositories.{Tables, Db}
use shop_microservices.Order.Orchestrator.{
  stock_reserved, stock_reservation_failed, payment_processed, payment_failed, stock_released,
  SagaReply, on_reply, load_saga_for_step,
}
use shop_microservices.Order.Orchestrator.Loading.{loaded_cases}
use shop_microservices.Order.Orchestrator.Consistency.{IsConsistent, status_at}
use shop_microservices.Order.Orchestrator.Safety.{
  reply_order, reply_step, on_reply_safe, on_reply-ignored,
}
use shop_microservices.Order.Orchestrator.Progress.{
  Progress, answer, answer_for, progress_of, from_step,
}
use shop_microservices.Order.Orchestrator.Progress.Rows.{progress_of-stored}
use shop_microservices.Order.Orchestrator.Progress.Refinement.{on_reply-progress}

-- How many more replies can move an order in a step.
abbrev rank : SagaStep → ℕ
rank SagaStep.reserve_stock = 3
rank SagaStep.process_payment = 2
rank SagaStep.release_stock = 1
rank SagaStep.completed = 0
rank SagaStep.failed = 0

abbrev room : Option Progress → ℕ
room none = 0
room (some p) = rank p.step

abbrev is_found : {A : Type 0} → Option A → Bool
is_found none = false
is_found (some a) = true

-- Whether the handler finds a saga of the order that waits for the reply.
abbrev pub acts : (T : Tables) → Db T → String → SagaReply → Bool
acts T db order_id reply =
    reply_order reply == order_id
    && is_found (load_saga_for_step T (reply_order reply) (reply_step reply) db)

abbrev bit : Bool → ℕ
bit true = 1
bit false = 0

-- The number of the replies that act on an order.
pub acting : (T : Tables) → DataSource OrderError (Db T) → String → List (ℕ × SagaReply) → Db T → ℕ
acting T D order_id [] db = 0
acting T D order_id ((now, reply) ∷ rest) db =
    bit (acts T db order_id reply) + acting T D order_id rest (on_reply T D now reply db).1

rank-from_step :
    (step : SagaStep) (after p : Progress)
    → rank after.step ≤ rank step
    → rank (from_step step after p).step ≤ rank p.step
rank-from_step step after p less = elim (Bool-cases (same_step p.step step)) [
  | inl same ↦ ground (arith, same, same_step-eq p.step step same, less)
  | inr other ↦ ground (arith, other)
]

rank-answer : (reply : SagaReply) (p : Progress) → rank (answer reply p).step ≤ rank p.step
rank-answer (stock_reserved e) p = rank-from_step _ _ p (omega arith)
rank-answer (stock_reservation_failed e) p = rank-from_step _ _ p (omega arith)
rank-answer (payment_processed e) p = rank-from_step _ _ p (omega arith)
rank-answer (payment_failed e) p = rank-from_step _ _ p (omega arith)
rank-answer (stock_released e) p = rank-from_step _ _ p (omega arith)

rank-moves :
    (reply : SagaReply) (p : Progress)
    → p.step ≡ reply_step reply
    → rank (answer reply p).step + 1 ≤ rank p.step
rank-moves (stock_reserved e) p h = rw (h, same_step_refl) (omega arith)
rank-moves (stock_reservation_failed e) p h = rw (h, same_step_refl) (omega arith)
rank-moves (payment_processed e) p h = rw (h, same_step_refl) (omega arith)
rank-moves (payment_failed e) p h = rw (h, same_step_refl) (omega arith)
rank-moves (stock_released e) p h = rw (h, same_step_refl) (omega arith)

rank-bounds : (step : SagaStep) → rank step ≤ 3
rank-bounds SagaStep.reserve_stock = omega arith
rank-bounds SagaStep.process_payment = omega arith
rank-bounds SagaStep.release_stock = omega arith
rank-bounds SagaStep.completed = omega arith
rank-bounds SagaStep.failed = omega arith

room-answer_for :
    (order_id : String) (reply : SagaReply) (o : Option Progress)
    → room (Option.map (answer_for order_id reply) o) ≤ room o
room-answer_for order_id reply none = omega arith
room-answer_for order_id reply (some p) = elim (Bool-cases (reply_order reply == order_id)) [
  | inl same ↦ rw same (rank-answer reply p)
  | inr other ↦ rw other (omega arith)
]

module _ (T : Tables) (D : DataSource OrderError (Db T)) (order_id : String) where
  -- A reply that acts finds the order in the step that it answers.
  acts-step :
      (db : Db T) (reply : SagaReply)
      → IsConsistent T db
      → acts T db order_id reply ≡ true
      → (p : Progress) × (progress_of T db order_id ≡ some p) × (p.step ≡ reply_step reply)
  acts-step db reply c does = elim (loaded_cases T db (reply_order reply) (reply_step reply)) [
    | inl none_waits ↦ absurd (ground (arith, does, none_waits))
    | inr (s, w, l) ↦
        let about : reply_order reply == order_id ≡ true = ground (arith, does) in
        let of_order = w.of_order ∙ (eq_iff (reply_order reply) order_id).0 about in
        let t = c.tied s.id s w.stored in
        (
          record { step = s.current_step; status = t.order_status },
          progress_of-stored T db order_id s t.order_status c w.stored of_order
              (ap (status_at T db.orders) (sym of_order) ∙ t.found),
          w.at_step,
        )
  ]

  room-acts :
      (o : Option Progress) (reply : SagaReply) (p : Progress)
      → reply_order reply == order_id ≡ true
      → o ≡ some p
      → p.step ≡ reply_step reply
      → 1 + room (Option.map (answer_for order_id reply) o) ≤ room o
  room-acts o reply p about e at = rw (e, about) (ground (arith, rank-moves reply p at))

  -- Each reply that acts takes away from the room that is left.
  room-on_reply :
      (now : ℕ) (db : Db T) (reply : SagaReply)
      → IsConsistent T db
      → bit (acts T db order_id reply) + room (progress_of T (on_reply T D now reply db).1 order_id)
        ≤ room (progress_of T db order_id)
  room-on_reply now db reply c = elim (Bool-cases (acts T db order_id reply)) [
    | inl does ↦
        let (p, e, at) = acts-step db reply c does in
        rw (does, on_reply-progress T D now db reply order_id c)
          (room-acts (progress_of T db order_id) reply p (ground (arith, does)) e at)
    | inr idle ↦
        rw (idle, on_reply-progress T D now db reply order_id c)
          (ground (arith, room-answer_for order_id reply (progress_of T db order_id)))
  ]

  acting-room :
      (events : List (ℕ × SagaReply)) (db : Db T)
      → IsConsistent T db
      → acting T D order_id events db ≤ room (progress_of T db order_id)
  unfolding acting
  acting-room [] db c = omega arith
  acting-room ((now, reply) ∷ rest) db c = ground (
    arith,
    acting-room rest (on_reply T D now reply db).1 (on_reply_safe T D now db c reply).1,
    room-on_reply now db reply c,
  )

  room-bounds : (o : Option Progress) → room o ≤ 3
  room-bounds none = omega arith
  room-bounds (some p) = rank-bounds p.step

  ignored-load :
      (db : Db T) (reply : SagaReply)
      → reply_order reply ≡ order_id
      → acts T db order_id reply ≡ false
      → load_saga_for_step T (reply_order reply) (reply_step reply) db ≡ none
  ignored-load db reply about idle =
      elim (Option-cases (load_saga_for_step T (reply_order reply) (reply_step reply) db)) [
        | inl none_waits ↦ none_waits
        | inr (saga, found) ↦
            absurd (cc (rw (acts, (eq_iff (reply_order reply) order_id).1 about, found) at idle))
      ]

  -- In a consistent database the saga of an order comes to an end: however many replies about it
  -- arrive, at any times and in any order, at most three of them act on it, and one that does not act
  -- changes nothing.
  pub acting_at_most_three :
      (events : List (ℕ × SagaReply)) (db : Db T)
      → IsConsistent T db
      → (acting T D order_id events db ≤ 3)
        × ((now : ℕ) (reply : SagaReply)
            → reply_order reply ≡ order_id
            → acts T db order_id reply ≡ false
            → on_reply T D now reply db ≡ (ok tt, db))
  acting_at_most_three events db c = (
    ground (arith, acting-room events db c, room-bounds (progress_of T db order_id)),
    λ now reply about idle. on_reply-ignored T D now db c reply (ignored-load db reply about idle),
  )
