-- ===== src/Outbox/Processor/Tick.antt =====
-- One tick of the processor as a whole: which rows it changes and what it sends.
use shop_microservices.Outbox.Processor.Batch.{
  in_batch, in_batch_due, at_most_ten, full_without, batch_table, find_one-batch_table,
  batch_table_origin,
}
use shop_microservices.Prelude.{
  Option, ap, sym, ℕ, ◌+◌, ◌*◌, ◌^◌, ◌≤◌, min, leb, length, arith, String, ◌≡◌, ◌∙◌, refl, List, [],
  ◌∷◌, none, inl, inr, true, false, some, ◌++◌, Option-cases, if◌then◌else◌,
}
use shop_microservices.Shared.{OutboxStatus, is_pending}
use shop_microservices.Shared.Messages.{correlation_id_of}
use shop_microservices.Outbox.{OutboxEntity, OutboxRepository}
use shop_microservices.Outbox.Processor.{
  Delivery, Published, Processor, message_of, sent_for, is_due, record_patch, process_records,
  process_pending, selected, committed, published_patch, failed_patch, delay_ms,
}
use shop_microservices.Outbox.Processor.Effect.{
  table-process_records, record_patch-id, sent_for_all, sent-process_records,
}

-- The messages of the records that Kafka accepts, in the order of the records.
abbrev pub accepted_messages : Delivery → List OutboxEntity → List Published
accepted_messages deliver [] = []
accepted_messages deliver (r ∷ rs) = elim (deliver r) [
  | none ↦
      record {
        topic = r.topic;
        payload = r.payload;
        correlation_id = correlation_id_of r.payload;
        message_id = r.id;
      }
      ∷ accepted_messages deliver rs
  | some error ↦ accepted_messages deliver rs
]

-- What becomes of a row that Kafka was asked to take: it is published; or it has failed once more and
-- is tried again after twice the wait, five minutes at most, unless its retries have run out.
abbrev pub after_delivery : ℕ → ℕ → Option String → OutboxEntity → OutboxEntity
after_delivery max_retries now none x = record x {
  status = OutboxStatus.published;
  published_at = some now;
}
after_delivery max_retries now (some error) x = record x {
  status =
      if leb max_retries (x.retry_count + 1) then OutboxStatus.failed else OutboxStatus.pending;
  retry_count = x.retry_count + 1;
  last_error = some error;
  scheduled_at = now + min (1000 * 2 ^ (x.retry_count + 1)) 300000;
}

record_patch-after_delivery :
    (max_retries now : ℕ) (deliver : Delivery) (x : OutboxEntity)
    → record_patch max_retries now deliver x x ≡ after_delivery max_retries now (deliver x) x
unfolding record_patch published_patch failed_patch delay_ms
record_patch-after_delivery max_retries now deliver x = elim (Option-cases (deliver x)) [
  | inl accepted ↦ rw (record_patch, accepted) refl
  | inr (error, refused) ↦ rw (record_patch, refused) refl
]

due_lem :
    (now : ℕ) (x : OutboxEntity)
    → is_due now x ≡ true
    → (x.status ≡ OutboxStatus.pending) × (x.scheduled_at ≤ now)
unfolding is_due is_pending
due_lem now x due = ground arith

due_if :
    (now : ℕ) (x : OutboxEntity)
    → x.status ≡ OutboxStatus.pending
    → x.scheduled_at ≤ now
    → is_due now x ≡ true
unfolding is_due is_pending
due_if now x pending scheduled = rw pending (ground (arith, scheduled))

sent_for_all-accepted_messages :
    (deliver : Delivery) (rs : List OutboxEntity)
    → sent_for_all deliver rs ≡ accepted_messages deliver rs
unfolding sent_for message_of
sent_for_all-accepted_messages deliver [] = refl
sent_for_all-accepted_messages deliver (r ∷ rs) = elim (Option-cases (deliver r)) [
  | inl h ↦ rw (
    sent_for_all,
    accepted_messages,
    sent_for,
    message_of,
    h,
    sent_for_all-accepted_messages deliver rs,
  )
  | inr (error, h) ↦ rw (
    sent_for_all,
    accepted_messages,
    sent_for,
    message_of,
    h,
    sent_for_all-accepted_messages deliver rs,
  )
]

module _ (R : OutboxRepository) (max_retries now : ℕ) (deliver : Delivery) (p : Processor R) where
  abbrev pub processed : R.Table
  processed = (process_records R max_retries now deliver (selected R now p) (p.table, p.sent)).0

  abbrev pub outcome : String → OutboxEntity → OutboxEntity
  outcome k x = if in_batch R now p k then record_patch max_retries now deliver x x else x

  processed-batch_table : processed ≡ batch_table R now p (record_patch max_retries now deliver)
  processed-batch_table =
      table-process_records R max_retries now deliver (selected R now p) p.table p.sent

  pub find_one-processed :
      (k : String) (x : OutboxEntity)
      → R.find_one p.table k ≡ some x
      → R.find_one processed k ≡ some (outcome k x)
  find_one-processed k x e =
      ap (λ t. R.find_one t k) processed-batch_table
      ∙ find_one-batch_table R now p (record_patch max_retries now deliver)
          (record_patch-id max_retries now deliver) k x e

  pub processed_origin :
      (k : String) (y : OutboxEntity)
      → R.find_one processed k ≡ some y
      → (x : OutboxEntity) × (R.find_one p.table k ≡ some x) × (y ≡ outcome k x)
  processed_origin k y e =
      batch_table_origin R now p (record_patch max_retries now deliver)
        (record_patch-id max_retries now deliver) k y
        (ap (λ t. R.find_one t k) (sym processed-batch_table) ∙ e)

  sent-processed :
      (process_records R max_retries now deliver (selected R now p) (p.table, p.sent)).1
      ≡ p.sent ++ accepted_messages deliver (selected R now p)
  sent-processed =
      rw⁻¹ (sent_for_all-accepted_messages deliver (selected R now p))
        (sent-process_records R max_retries now deliver (selected R now p) p.table p.sent)

  -- A tick that runs and commits selects at most ten rows, all of them pending and due; a pending
  -- row that is due is left out only where there are ten others. Each selected row is published if
  -- Kafka accepts its message; if not, its retry count is one higher, its error is kept, and it is
  -- due again after two to the power of that count in seconds, five minutes at most, or failed for
  -- good when the count has come to `max_retries`. Every other row stays as it was. Kafka has got
  -- one message for each row of the batch that it accepted, with the row's topic, payload and id,
  -- in the order of the batch.
  pub tick_effect :
      (k : String) (x : OutboxEntity)
      → p.is_processing ≡ false
      → R.find_one p.table k ≡ some x
      → let q = process_pending R max_retries now deliver committed p in
        (length (selected R now p) ≤ 10)
        × (x.status ≡ OutboxStatus.pending
            → x.scheduled_at ≤ now
            → in_batch R now p k ≡ false
            → length (selected R now p) ≡ 10)
        × (in_batch R now p k ≡ false → R.find_one q.table k ≡ some x)
        × (in_batch R now p k ≡ true
            → (x.status ≡ OutboxStatus.pending)
              × (x.scheduled_at ≤ now)
              × (R.find_one q.table k ≡ some (after_delivery max_retries now (deliver x) x)))
        × (q.sent ≡ p.sent ++ accepted_messages deliver (selected R now p))
  unfolding process_pending
  tick_effect k x idle e =
      let found = find_one-processed k x e in
      rw idle (
        at_most_ten R now p,
        λ pending scheduled out. full_without R now p k x e (due_if now x pending scheduled) out,
        λ out. found ∙ rw out refl,
        λ inside.
            let (pending, scheduled) = due_lem now x (in_batch_due R now p k x e inside) in
            (
              pending,
              scheduled,
              found ∙ rw inside (ap some (record_patch-after_delivery max_retries now deliver x)),
            ),
        sent-processed,
      )
