-- ===== src/Outbox/Processor/Effect.antt =====
-- What one tick does to the table and to Kafka, row by row.
use mathlib.Core.Option
use mathlib.Core.List.{append-nil, append_assoc}
use shop_microservices.Prelude.{
  ℕ, String, ◌==◌, eq_iff, ◌≡◌, refl, sym, ◌∙◌, inl, inr, true, false, some, subst, Bool-cases,
  List, [], ◌∷◌, ◌++◌, map, All, Distinct, contains, arith, if◌then◌else◌,
}
use shop_microservices.Repository.{Patch}
use shop_microservices.Outbox.{OutboxEntity, OutboxRepository, outbox_key}
use shop_microservices.Outbox.Processor.{
  Published, Delivery, is_due, record_patch, sent_for, process_records,
}

pub record_patch-id :
    (max_retries now : ℕ) (deliver : Delivery) (r x : OutboxEntity)
    → (record_patch max_retries now deliver r x).id ≡ x.id
unfolding record_patch
record_patch-id max_retries now deliver r x = ground arith

-- What the records add to the topics, in the order of the batch.
abbrev pub sent_for_all : Delivery → List OutboxEntity → List Published
sent_for_all deliver [] = []
sent_for_all deliver (r ∷ rs) = sent_for deliver r ++ sent_for_all deliver rs

-- A batch of records, each patched in turn by what was made of it.
module _ (R : OutboxRepository) (patch : OutboxEntity → Patch OutboxEntity) where
  unfoldable pub update_each : List OutboxEntity → R.Table → R.Table
  update_each [] t = t
  update_each (r ∷ rs) t = update_each rs (R.update t r.id (patch r))

  abbrev pub StoredIn : R.Table → OutboxEntity → Type 0
  StoredIn t r = R.find_one t r.id ≡ some r

  module _ (patch-id : (r x : OutboxEntity) → (patch r x).id ≡ x.id) where
    abbrev stepped : R.Table → OutboxEntity → R.Table
    stepped t r = R.update t r.id (patch r)

    find_one-stepped :
        (t : R.Table) (r : OutboxEntity) (k : String)
        → R.find_one (stepped t r) k
          ≡ (if r.id == k then Option.map (patch r) (R.find_one t k) else R.find_one t k)
    find_one-stepped t r k = R.find_one-update t r.id (patch r) (patch-id r) k

    pub untouched :
        (rs : List OutboxEntity) (t : R.Table) (k : String)
        → contains k (map outbox_key rs) ≡ false
        → R.find_one (update_each rs t) k ≡ R.find_one t k
    unfolding update_each
    untouched [] t k h = refl
    untouched (r ∷ rs) t k h = ground (arith, untouched rs (stepped t r) k, find_one-stepped t r k)

    -- Patching one record leaves the rest of a batch without repetition as it was.
    stored_stepped :
        (rs : List OutboxEntity) (t : R.Table) (r : OutboxEntity)
        → contains r.id (map outbox_key rs) ≡ false
        → All (StoredIn t) rs
        → All (StoredIn (stepped t r)) rs
    stored_stepped [] t r h a = tt
    stored_stepped (x ∷ rs) t r h a = ground (
      arith,
      eq_iff r.id x.id,
      eq_iff x.id r.id,
      find_one-stepped t r x.id,
      stored_stepped rs t r,
    )

    pub touched :
        (rs : List OutboxEntity) (t : R.Table) (k : String) (x : OutboxEntity)
        → Distinct (map outbox_key rs)
        → All (StoredIn t) rs
        → R.find_one t k ≡ some x
        → contains k (map outbox_key rs) ≡ true
        → R.find_one (update_each rs t) k ≡ some (patch x x)
    unfolding update_each
    touched [] t k x d a e h = cc
    touched (r ∷ rs) t k x d a e h = ground (
      arith,
      eq_iff r.id k,
      find_one-stepped t r k,
      untouched rs (stepped t r) k,
      stored_stepped rs t r,
      touched rs (stepped t r) k x,
    )

module _ (R : OutboxRepository) (max_retries now : ℕ) (deliver : Delivery) where
  abbrev pub after : List OutboxEntity → R.Table → List Published → R.Table × List Published
  after rs t sent = process_records R max_retries now deliver rs (t, sent)

  pub table-process_records :
      (rs : List OutboxEntity) (t : R.Table) (sent : List Published)
      → (after rs t sent).0 ≡ update_each R (record_patch max_retries now deliver) rs t
  unfolding process_records update_each
  table-process_records [] t sent = refl
  table-process_records (r ∷ rs) t sent =
      table-process_records rs (R.update t r.id (record_patch max_retries now deliver r))
        (sent ++ sent_for deliver r)

  pub sent-process_records :
      (rs : List OutboxEntity) (t : R.Table) (sent : List Published)
      → (after rs t sent).1 ≡ sent ++ sent_for_all deliver rs
  unfolding process_records
  sent-process_records [] t sent = sym (append-nil sent)
  sent-process_records (r ∷ rs) t sent =
      sent-process_records rs (R.update t r.id (record_patch max_retries now deliver r))
        (sent ++ sent_for deliver r)
      ∙ append_assoc sent (sent_for deliver r) (sent_for_all deliver rs)

-- What is known of the records that the query selected.
module _ (R : OutboxRepository) (now : ℕ) (t : R.Table) where
  abbrev pub Selected : OutboxEntity → Type 0
  Selected r = (is_due now r ≡ true) × (R.find_one t r.id ≡ some r)

  pub stored_of_contains :
      (rs : List OutboxEntity) (k : String)
      → All Selected rs
      → contains k (map outbox_key rs) ≡ true
      → (x : OutboxEntity) × (R.find_one t k ≡ some x)
  stored_of_contains [] k a h = absurd (cc)
  stored_of_contains (r ∷ rs) k a h = elim (Bool-cases (r.id == k)) [
    | inl same ↦ (r, subst (λ i. R.find_one t i ≡ some r) ((eq_iff r.id k).0 same) a.0.1)
    | inr other ↦ stored_of_contains rs k a.1 (ground arith)
  ]

  pub due_of_contains :
      (rs : List OutboxEntity) (k : String) (x : OutboxEntity)
      → All Selected rs
      → R.find_one t k ≡ some x
      → contains k (map outbox_key rs) ≡ true
      → is_due now x ≡ true
  due_of_contains [] k x a e h = cc
  due_of_contains (r ∷ rs) k x a e h = ground (arith, eq_iff r.id k, due_of_contains rs k x a.1 e)

  pub stored-All :
      (rs : List OutboxEntity) → All Selected rs → All (λ r. R.find_one t r.id ≡ some r) rs
  stored-All [] a = tt
  stored-All (r ∷ rs) a = (a.0.1, stored-All rs a.1)
