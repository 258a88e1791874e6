-- ===== src/Outbox/Processor/Batch.antt =====
-- The rows that a tick selects, and the table after each of them was patched.
use shop_microservices.Prelude.{
  ℕ, String, ◌≡◌, ◌∙◌, inl, inr, Bool, true, false, some, map, All, length, ◌≤◌, Distinct, contains,
  Bool-cases, Option-cases, arith, if◌then◌else◌,
}
use shop_microservices.Repository.{Patch}
use shop_microservices.Outbox.{OutboxEntity, OutboxRepository, outbox_key}
use shop_microservices.Outbox.Processor.{Processor, is_due, selected}
use shop_microservices.Outbox.Processor.Effect.{
  Selected, update_each, untouched, touched, stored_of_contains, due_of_contains, stored-All,
}

module _ (R : OutboxRepository) (now : ℕ) (p : Processor R) where
  abbrev pub in_batch : String → Bool
  in_batch k = contains k (map outbox_key (selected R now p))

  batch_sound : All (Selected R now p.table) (selected R now p)
  unfolding selected
  batch_sound = R.find_many_sound p.table (is_due now) (λ r. r.scheduled_at) 10

  pub batch_stored : All (λ r. R.find_one p.table r.id ≡ some r) (selected R now p)
  batch_stored = stored-All R now p.table (selected R now p) batch_sound

  batch-Distinct : Distinct (map outbox_key (selected R now p))
  unfolding selected
  batch-Distinct = R.find_many_distinct p.table (is_due now) (λ r. r.scheduled_at) 10

  pub at_most_ten : length (selected R now p) ≤ 10
  unfolding selected
  at_most_ten = R.length-find_many p.table (is_due now) (λ r. r.scheduled_at) 10

  -- A row that is due is left out only where the batch is full.
  pub full_without :
      (k : String) (x : OutboxEntity)
      → R.find_one p.table k ≡ some x
      → is_due now x ≡ true
      → in_batch k ≡ false
      → length (selected R now p) ≡ 10
  unfolding selected
  full_without k x e due out =
      R.find_many_complete p.table (is_due now) (λ r. r.scheduled_at) 10 k x e due out

  pub in_batch_due :
      (k : String) (x : OutboxEntity)
      → R.find_one p.table k ≡ some x
      → in_batch k ≡ true
      → is_due now x ≡ true
  in_batch_due k x e h = due_of_contains R now p.table (selected R now p) k x batch_sound e h

  module _ (patch : OutboxEntity → Patch OutboxEntity) where
    abbrev pub batch_table : R.Table
    batch_table = update_each R patch (selected R now p) p.table

    abbrev pub patched : String → OutboxEntity → OutboxEntity
    patched k x = if in_batch k then patch x x else x

    module _ (patch-id : (r x : OutboxEntity) → (patch r x).id ≡ x.id) where
      pub find_one-batch_table :
          (k : String) (x : OutboxEntity)
          → R.find_one p.table k ≡ some x
          → R.find_one batch_table k ≡ some (patched k x)
      find_one-batch_table k x e = elim (Bool-cases (in_batch k)) [
        | inl h ↦ rw h (
            touched R patch patch-id (selected R now p) p.table k x batch-Distinct batch_stored e h)
        | inr h ↦ rw h (untouched R patch patch-id (selected R now p) p.table k h ∙ e)
      ]

      -- No row appears.
      pub batch_table_origin :
          (k : String) (y : OutboxEntity)
          → R.find_one batch_table k ≡ some y
          → (x : OutboxEntity) × (R.find_one p.table k ≡ some x) × (y ≡ patched k x)
      batch_table_origin k y e = elim (Option-cases (R.find_one p.table k)) [
        | inr (x, f) ↦ (x, f, ground (arith, find_one-batch_table k x f))
        | inl f ↦ elim (Bool-cases (in_batch k)) [
          | inl h ↦
              absurd
                (cc (f, (stored_of_contains R now p.table (selected R now p) k batch_sound h).1))
          | inr h ↦ absurd (cc (f, e, untouched R patch patch-id (selected R now p) p.table k h))
        ]
      ]
