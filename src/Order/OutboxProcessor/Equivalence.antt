-- ===== src/Order/OutboxProcessor/Equivalence.antt =====
-- The processor of order-service against the one that the other services share.
use shop_microservices.Prelude.{
  ℕ, ◌+◌, String, ◌≡◌, ◌≢◌, refl, sym, ◌∙◌, ap, Option, none, some, List, [], ◌∷◌, ◌++◌, map, inl,
  inr, Bool-cases, Option-cases, take, take-map, leb, arith, if◌then◌else◌,
}
use shop_microservices.Repository.{Patch}
use shop_microservices.Shared.{OutboxStatus}
use shop_microservices.Outbox.{OutboxEntity, OutboxRepository}
use shop_microservices.Outbox.Processor
use shop_microservices.Outbox.Processor.{
  Published, Delivery, Processor, delay_ms, is_due, record_patch, failed_patch, published_patch,
  sent_for, selected, Ending, committed, rolled_back, reached, stays, process_records,
}
use shop_microservices.Outbox.Processor.Effect.{sent-process_records, update_each, sent_for_all}
use mathlib.Core.List.{append-nil, append_assoc}
use shop_microservices.Outbox.Processor.Batch.{
  in_batch, batch_table, patched, find_one-batch_table, batch_table_origin,
}
use shop_microservices.Outbox.Processor.Tick.{
  outcome, processed, find_one-processed, processed_origin,
}
use shop_microservices.Order.OutboxProcessor.{
  RecordDelivery, to_record, process_record, process_each, find_pending_with_lock, process_pending,
}

-- The broker answers to the record that the row is handed on as.
abbrev pub on_rows : RecordDelivery → Delivery
on_rows deliver o = deliver (to_record o)

exhausted_patch : ℕ → String → Patch OutboxEntity
exhausted_patch retry_count error x = record x {
  status = OutboxStatus.failed;
  retry_count = retry_count;
  last_error = some error;
}

retry_patch : ℕ → ℕ → String → Patch OutboxEntity
retry_patch now retry_count error x = record x {
  status = OutboxStatus.pending;
  retry_count = retry_count;
  last_error = some error;
  scheduled_at = now + delay_ms retry_count;
}

-- The columns that order-service writes to the row of a selected record.
service_patch : ℕ → ℕ → RecordDelivery → OutboxEntity → Patch OutboxEntity
service_patch max_retries now deliver r = elim (deliver (to_record r)) [
  | none ↦ published_patch now
  | some error ↦
      if leb max_retries (r.retry_count + 1)
      then exhausted_patch (r.retry_count + 1) error
      else retry_patch now (r.retry_count + 1) error
]

service_patch-id :
    (max_retries now : ℕ) (deliver : RecordDelivery) (r x : OutboxEntity)
    → (service_patch max_retries now deliver r x).id ≡ x.id
unfolding service_patch exhausted_patch retry_patch published_patch
service_patch-id max_retries now deliver r x = ground arith

module _ (R : OutboxRepository) (max_retries now : ℕ) (deliver : RecordDelivery) where
  process_record-service_patch :
      (r : OutboxEntity) (t : R.Table) (sent : List Published)
      → process_record R max_retries now deliver (to_record r) (t, sent) ≡ (
        R.update t r.id (service_patch max_retries now deliver r),
        sent ++ sent_for (on_rows deliver) r,
      )
  unfolding process_record service_patch sent_for to_record exhausted_patch retry_patch
      published_patch
  process_record-service_patch r t sent = elim (Option-cases (deliver (to_record r))) [
    | inl h ↦ rw (process_record, service_patch, sent_for, h)
    | inr (error, h) ↦ elim (Bool-cases (leb max_retries (r.retry_count + 1))) [
      | inl last ↦ rw (process_record, service_patch, sent_for, h, last, append-nil)
      | inr more ↦ rw (process_record, service_patch, sent_for, h, more, append-nil)
    ]
  ]

  process_each-update_each :
      (rs : List OutboxEntity) (t : R.Table) (sent : List Published)
      → process_each R max_retries now deliver (map to_record rs) (t, sent) ≡ (
        update_each R (service_patch max_retries now deliver) rs t,
        sent ++ sent_for_all (on_rows deliver) rs,
      )
  unfolding process_each update_each
  process_each-update_each [] t sent = rw append-nil
  process_each-update_each (r ∷ rs) t sent =
      ap (process_each R max_retries now deliver (map to_record rs))
        (process_record-service_patch r t sent)
      ∙ process_each-update_each rs (R.update t r.id (service_patch max_retries now deliver r))
          (sent ++ sent_for (on_rows deliver) r)
      ∙ ap (λ ms. (update_each R (service_patch max_retries now deliver) (r ∷ rs) t, ms))
          (append_assoc sent (sent_for (on_rows deliver) r) (sent_for_all (on_rows deliver) rs))

-- The same row but for the time at which a failed one would be tried again.
abbrev pub SameRow : OutboxEntity → OutboxEntity → Type 0
SameRow x y =
    (x ≡ record y { scheduled_at = x.scheduled_at }) × (x.status ≢ OutboxStatus.failed → x ≡ y)

abbrev pub SameEntry : Option OutboxEntity → Option OutboxEntity → Type 0
SameEntry none none = Unit
SameEntry (some x) (some y) = SameRow x y
SameEntry none (some y) = ⊥
SameEntry (some x) none = ⊥

SameEntry-refl : (o : Option OutboxEntity) → SameEntry o o
SameEntry-refl none = tt
SameEntry-refl (some x) = (refl, λ _. refl)

service_patch-record_patch :
    (max_retries now : ℕ) (deliver : RecordDelivery) (x : OutboxEntity)
    → SameRow
        (service_patch max_retries now deliver x x)
        (record_patch max_retries now (on_rows deliver) x x)
unfolding service_patch record_patch exhausted_patch retry_patch published_patch failed_patch
service_patch-record_patch max_retries now deliver x = elim (Option-cases (deliver (to_record x))) [
  | inl h ↦ rw (service_patch, record_patch, h) (refl, λ _. refl)
  | inr (error, h) ↦ elim (Bool-cases (leb max_retries (x.retry_count + 1))) [
    | inl last ↦
        rw (service_patch, record_patch, h, failed_patch, last) (refl, λ other. absurd (other refl))
    | inr more ↦ rw (service_patch, record_patch, h, failed_patch, more) (refl, λ _. refl)
  ]
]

module _ (R : OutboxRepository) (max_retries now : ℕ) (deliver : RecordDelivery)
    (p : Processor R) where
  abbrev records : List OutboxEntity
  records = selected R now p

  abbrev written : R.Table
  written = batch_table R now p (service_patch max_retries now deliver)

  SameRow-patched :
      (k : String) (x : OutboxEntity)
      → SameRow
          (patched R now p (service_patch max_retries now deliver) k x)
          (outcome R max_retries now (on_rows deliver) p k x)
  SameRow-patched k x = elim (Bool-cases (in_batch R now p k)) [
    | inl h ↦ rw h (service_patch-record_patch max_retries now deliver x)
    | inr h ↦ rw h (refl, λ _. refl)
  ]

  no_row :
      (k : String)
      → R.find_one p.table k ≡ none
      → (R.find_one written k ≡ none)
        × (R.find_one (processed R max_retries now (on_rows deliver) p) k ≡ none)
  no_row k e = (
    elim (Option-cases (R.find_one written k)) [
      | inl h ↦ h
      | inr (y, h) ↦
          let (x, f, _) =
            batch_table_origin R now p (service_patch max_retries now deliver)
              (service_patch-id max_retries now deliver) k y h in
          absurd (cc (e, f))
    ],
    elim (Option-cases (R.find_one (processed R max_retries now (on_rows deliver) p) k)) [
      | inl h ↦ h
      | inr (y, h) ↦
          let (x, f, _) = processed_origin R max_retries now (on_rows deliver) p k y h in
          absurd (cc (e, f))
    ],
  )

  SameEntry-written :
      (k : String)
      → SameEntry
          (R.find_one written k)
          (R.find_one (processed R max_retries now (on_rows deliver) p) k)
  SameEntry-written k = elim (Option-cases (R.find_one p.table k)) [
    | inl e ↦ let (a, b) = no_row k e in rw (a, b) tt
    | inr (x, e) ↦
        rw
          (
            find_one-batch_table R now p (service_patch max_retries now deliver)
                (service_patch-id max_retries now deliver) k x e,
            find_one-processed R max_retries now (on_rows deliver) p k x e,
          )
          (SameRow-patched k x)
  ]

  process_each-selected :
      (ending : Ending)
      → process_each R max_retries now deliver
          (reached ending (find_pending_with_lock R now 10 p.table))
          (p.table, p.sent)
        ≡ (
          update_each R
              (service_patch max_retries now deliver)
              (reached ending (selected R now p))
              p.table,
          p.sent ++ sent_for_all (on_rows deliver) (reached ending (selected R now p)),
        )
  unfolding find_pending_with_lock selected
  process_each-selected committed =
      process_each-update_each R max_retries now deliver (selected R now p) p.table p.sent
  process_each-selected (rolled_back n) =
      ap (λ rs. process_each R max_retries now deliver rs (p.table, p.sent))
        (take-map to_record n (selected R now p))
      ∙ process_each-update_each R max_retries now deliver (take n (selected R now p)) p.table
          p.sent

  SameEntry-stays :
      (ending : Ending) (k : String)
      → let rs = reached ending (selected R now p) in
        SameEntry
          (R.find_one
            (stays ending
              (update_each R (service_patch max_retries now deliver) rs p.table)
              p.table)
            k)
          (R.find_one
            (stays ending
              (process_records R max_retries now (on_rows deliver) rs (p.table, p.sent)).0
              p.table)
            k)
  SameEntry-stays committed k = SameEntry-written k
  SameEntry-stays (rolled_back n) k = SameEntry-refl (R.find_one p.table k)

-- From the same outbox, with the same answers of the broker and the same outcome of the transaction,
-- a tick of the processor of order-service gives Kafka the same messages in the same order as one of
-- the processor that the other services share, and leaves the same rows, except that a row that it
-- marks failed keeps the time at which it was scheduled.
pub process_pending-SameOutbox :
    (R : OutboxRepository) (max_retries now : ℕ) (deliver : RecordDelivery) (ending : Ending)
    (p : Processor R)
    → let q = process_pending R max_retries now deliver ending p in
      let q' = Processor.process_pending R max_retries now (on_rows deliver) ending p in
      (q.sent ≡ q'.sent)
      × (q.is_processing ≡ q'.is_processing)
      × ((k : String) → SameEntry (R.find_one q.table k) (R.find_one q'.table k))
unfolding process_pending Processor.process_pending
process_pending-SameOutbox R max_retries now deliver ending p = elim (Bool-cases p.is_processing) [
  | inl busy ↦ rw busy (refl, refl, λ k. SameEntry-refl (R.find_one p.table k))
  | inr idle ↦
      rw (idle, process_each-selected R max_retries now deliver p ending)
        (
          sym (
              sent-process_records R max_retries now (on_rows deliver)
                (reached ending (selected R now p)) p.table p.sent),
          refl,
          SameEntry-stays R max_retries now deliver p ending,
        )
]
