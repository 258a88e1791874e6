-- ===== src/Outbox/Processor/Accounting.antt =====
-- What holds of a service's outbox at all times: no row is marked published that Kafka has not
-- accepted, whatever commits and failures came before, and the retries are counted.
use shop_microservices.Prelude.{
  ℕ, ◌+◌, ◌≤◌, ◌<◌, String, ◌≡◌, ◌∙◌, Option, Option-cases, take, Bool, true, false, none, some,
  List, [], ◌∷◌, ◌++◌, map, All, inl, inr, contains, subst, sym, Bool-cases, eq_iff, arith,
  if◌then◌else◌,
}
use shop_microservices.Shared.{OutboxStatus, KafkaTopic}
use shop_microservices.Shared.Messages.{Payload}
use shop_microservices.Outbox.{OutboxEntity, OutboxRepository, outbox_key, outbox_row, write}
use shop_microservices.Outbox.Processor.{
  Published, Delivery, Processor, is_due, record_patch, process_pending, selected, sent_for, Ending,
  committed, rolled_back,
}
use shop_microservices.Outbox.Processor.Effect.{sent_for_all, sent-process_records}
use shop_microservices.Outbox.Processor.Batch.{in_batch, in_batch_due, batch_stored}
use shop_microservices.Outbox.Processor.Tick.{
  processed, outcome, find_one-processed, processed_origin,
}

abbrev pub message_key : Published → String
message_key m = m.message_id

-- Kafka has accepted a message that carries the row's id.
abbrev pub is_sent : String → List Published → Bool
is_sent id sent = contains id (map message_key sent)

-- `fails` is how often Kafka has refused the row in a tick that was committed.
pub record IsAccounted (max_retries : ℕ) (sent : List Published) (fails : ℕ) (r : OutboxEntity)
    : Type 0 where
  pub published_was_sent : r.status ≡ OutboxStatus.published → is_sent r.id sent ≡ true
  pub pending_has_retries : r.status ≡ OutboxStatus.pending → fails < max_retries
  pub failed_is_exhausted : r.status ≡ OutboxStatus.failed → fails ≡ max_retries
  pub counted : r.retry_count ≡ fails
  pub retries_bounded : fails ≤ max_retries

-- `counts` gives the number for each row, and none for an id that no row has.
pub record AllAccounted (R : OutboxRepository) (max_retries : ℕ) (counts : String → ℕ)
    (p : Processor R) : Type 0 where
  pub rows :
      (k : String) (r : OutboxEntity)
      → R.find_one p.table k ≡ some r
      → IsAccounted max_retries p.sent (counts k) r
  pub absent : (k : String) → R.find_one p.table k ≡ none → counts k ≡ 0

is_sent-append :
    (id : String) (sent more : List Published)
    → is_sent id sent ≡ true
    → is_sent id (sent ++ more) ≡ true
is_sent-append id [] more h = cc
is_sent-append id (m ∷ sent) more h = ground (arith, is_sent-append id sent more)

is_sent-append_right :
    (id : String) (sent more : List Published)
    → is_sent id more ≡ true
    → is_sent id (sent ++ more) ≡ true
is_sent-append_right id [] more h = h
is_sent-append_right id (m ∷ sent) more h = ground (arith, is_sent-append_right id sent more)

IsAccounted-append :
    (max_retries fails : ℕ) (sent more : List Published) (r : OutboxEntity)
    → IsAccounted max_retries sent fails r
    → IsAccounted max_retries (sent ++ more) fails r
IsAccounted-append max_retries fails sent more r a = record {
  published_was_sent = λ h. is_sent-append r.id sent more (a.published_was_sent h);
  pending_has_retries = a.pending_has_retries;
  failed_is_exhausted = a.failed_is_exhausted;
  counted = a.counted;
  retries_bounded = a.retries_bounded;
}

-- A refusal counts once.
abbrev pub refusals : Option String → ℕ
refusals none = 0
refusals (some error) = 1

abbrev pub refused_row : Delivery → Option OutboxEntity → ℕ
refused_row deliver none = 0
refused_row deliver (some x) = refusals (deliver x)

-- What a committed tick adds to the count of a row.
abbrev pub refused_in : (R : OutboxRepository) → ℕ → Delivery → Processor R → String → ℕ
refused_in R now deliver p k =
    if in_batch R now p k then refused_row deliver (R.find_one p.table k) else 0

module _ (R : OutboxRepository) (max_retries now : ℕ) (deliver : Delivery) where
  -- The message of an accepted record is among those of its batch.
  is_sent-sent_for_all :
      (rs : List OutboxEntity) (t : R.Table) (k : String) (r : OutboxEntity)
      → All (λ x. R.find_one t x.id ≡ some x) rs
      → R.find_one t k ≡ some r
      → deliver r ≡ none
      → contains k (map outbox_key rs) ≡ true
      → is_sent k (sent_for_all deliver rs) ≡ true
  unfolding sent_for
  is_sent-sent_for_all [] t k r a e d c = cc
  is_sent-sent_for_all (x ∷ rs) t k r a e d c = ground (
    arith,
    eq_iff x.id k,
    is_sent-sent_for_all rs t k r a.1 e d,
    is_sent-append_right k (sent_for deliver x) (sent_for_all deliver rs),
  )

  -- A selected row is accounted for by what its own delivery gave.
  record_patch-IsAccounted :
      (sent more : List Published) (fails : ℕ) (x : OutboxEntity)
      → is_due now x ≡ true
      → (deliver x ≡ none → is_sent x.id more ≡ true)
      → IsAccounted max_retries sent fails x
      → IsAccounted max_retries
          (sent ++ more)
          (fails + refusals (deliver x))
          (record_patch max_retries now deliver x x)
  unfolding record_patch is_due
  record_patch-IsAccounted sent more fails x due d a = elim (Option-cases (deliver x)) [
    | inl accepted ↦ rw accepted (ground (arith, accepted, is_sent-append_right x.id sent more))
    | inr (error, refused) ↦ rw refused (ground (arith, refused))
  ]

  module _ (p : Processor R) (counts : String → ℕ)
      (accounted : AllAccounted R max_retries counts p) where
    abbrev more : List Published
    more = sent_for_all deliver (selected R now p)

    outcome-IsAccounted :
        (k : String) (x : OutboxEntity)
        → R.find_one p.table k ≡ some x
        → IsAccounted max_retries
            (p.sent ++ more)
            (counts k + refused_in R now deliver p k)
            (outcome R max_retries now deliver p k x)
    outcome-IsAccounted k x e = elim (Bool-cases (in_batch R now p k)) [
      | inl h ↦
          rw (h, e)
            (record_patch-IsAccounted p.sent more (counts k) x (in_batch_due R now p k x e h)
              (λ d.
                subst (λ i. is_sent i more ≡ true) (sym (R.key-find_one p.table k x e))
                  (is_sent-sent_for_all (selected R now p) p.table k x (batch_stored R now p) e d
                    h))
              (accounted.rows k x e))
      | inr h ↦ rw h (
          subst (λ n. IsAccounted max_retries (p.sent ++ more) n x) (omega arith)
            (IsAccounted-append max_retries (counts k) p.sent more x (accounted.rows k x e)))
    ]

    processed-AllAccounted :
        AllAccounted R max_retries
          (λ k. counts k + refused_in R now deliver p k)
          (record {
            is_processing = false;
            table = processed R max_retries now deliver p;
            sent = p.sent ++ more;
          })
    processed-AllAccounted = record {
      rows = λ k y e.
          let (x, f, same) = processed_origin R max_retries now deliver p k y e in
          rw same (outcome-IsAccounted k x f);
      absent = λ k gone. elim (Option-cases (R.find_one p.table k)) [
        | inr (x, f) ↦ absurd (cc (gone, find_one-processed R max_retries now deliver p k x f))
        | inl none_before ↦ ground (arith, none_before, accounted.absent k none_before)
      ];
    }

    sent-AllAccounted :
        (rs : List OutboxEntity)
        → AllAccounted R max_retries counts
            (record p { is_processing = false; sent = p.sent ++ sent_for_all deliver rs })
    sent-AllAccounted rs = record {
      rows = λ k x e.
          IsAccounted-append max_retries (counts k) p.sent (sent_for_all deliver rs) x
            (accounted.rows k x e);
      absent = accounted.absent;
    }

module _ (R : OutboxRepository) (max_retries : ℕ) where
  pub write-AllAccounted :
      (p : Processor R) (counts : String → ℕ) (now : ℕ) (aggregate_id : String) (topic : KafkaTopic)
      (key : String) (payload : Payload)
      → 0 < max_retries
      → AllAccounted R max_retries counts p
      → AllAccounted R max_retries counts
          (record p { table = write R now aggregate_id topic key payload p.table })
  unfolding write
  write-AllAccounted p counts now aggregate_id topic key payload positive a =
      let row = outbox_row (R.generate p.table) now aggregate_id topic key payload in
      record {
        rows = λ k r e. ground (
          arith,
          a.rows k r,
          R.find_one-save p.table row k,
          a.absent (R.generate p.table) (R.find_one-generate p.table),
          eq_iff (R.generate p.table) k,
        );
        absent = λ k gone. ground (arith, a.absent k, R.find_one-save p.table row k);
      }

-- What happens to an outbox: the service writes a message, or a tick runs.
pub data Event : Type 0 where
  written : ℕ → String → KafkaTopic → String → Payload → Event
  tick : ℕ → Delivery → Ending → Event

module _ (R : OutboxRepository) (max_retries : ℕ) where
  pub happen : Processor R → Event → Processor R
  happen p (written now aggregate_id topic key payload) = record p {
    table = write R now aggregate_id topic key payload p.table;
  }
  happen p (tick now deliver ending) = process_pending R max_retries now deliver ending p

  pub history : Processor R → List Event → Processor R
  history p [] = p
  history p (e ∷ es) = history (happen p e) es

  -- How often Kafka refuses a row in an event: at most once, in a tick that runs and is committed.
  abbrev pub refused_by : Processor R → Event → String → ℕ
  refused_by p (written now aggregate_id topic key payload) k = 0
  refused_by p (tick now deliver committed) k =
      if p.is_processing then 0 else refused_in R now deliver p k
  refused_by p (tick now deliver (rolled_back n)) k = 0

  -- The counts after a history.
  pub refusals_after : Processor R → (String → ℕ) → List Event → String → ℕ
  refusals_after p counts [] k = counts k
  refusals_after p counts (e ∷ es) k =
      refusals_after (happen p e) (λ j. counts j + refused_by p e j) es k

  same-counts :
      (p : Processor R) (counts counts' : String → ℕ)
      → ((k : String) → counts k ≡ counts' k)
      → AllAccounted R max_retries counts p
      → AllAccounted R max_retries counts' p
  same-counts p counts counts' same a = record {
    rows = λ k r e. subst (λ n. IsAccounted max_retries p.sent n r) (same k) (a.rows k r e);
    absent = λ k gone. sym (same k) ∙ a.absent k gone;
  }

  -- The outbox stays accounted for over a tick, whatever Kafka answers and however the transaction
  -- ends.
  tick-AllAccounted :
      (p : Processor R) (counts : String → ℕ) (now : ℕ) (deliver : Delivery) (ending : Ending)
      → AllAccounted R max_retries counts p
      → AllAccounted R max_retries
          (λ k. counts k + refused_by p (tick now deliver ending) k)
          (process_pending R max_retries now deliver ending p)
  unfolding process_pending
  tick-AllAccounted p counts now deliver committed a = elim (Bool-cases p.is_processing) [
    | inl busy ↦
        same-counts (process_pending R max_retries now deliver committed p) counts
          (λ k. counts k + refused_by p (tick now deliver committed) k)
          (λ k. simp busy (omega arith)) (simp (process_pending, busy) a)
    | inr idle ↦
        same-counts (process_pending R max_retries now deliver committed p)
          (λ k. counts k + refused_in R now deliver p k)
          (λ k. counts k + refused_by p (tick now deliver committed) k)
          (λ k. simp idle (omega arith))
          (rw
            (
              process_pending,
              idle,
              sent-process_records R max_retries now deliver (selected R now p) p.table p.sent,
            )
            (processed-AllAccounted R max_retries now deliver p counts a))
  ]
  tick-AllAccounted p counts now deliver (rolled_back n) a =
      same-counts _ counts (λ k. counts k + 0) (λ k. omega arith)
        (elim (Bool-cases p.is_processing) [
          | inl busy ↦ simp (process_pending, busy) a
          | inr idle ↦
              rw
                (
                  process_pending,
                  idle,
                  sent-process_records R max_retries now deliver (take n (selected R now p)) p.table
                      p.sent,
                )
                (sent-AllAccounted R max_retries now deliver p counts a (take n (selected R now p)))
        ])

  happen-AllAccounted :
      (p : Processor R) (counts : String → ℕ) (e : Event)
      → 0 < max_retries
      → AllAccounted R max_retries counts p
      → AllAccounted R max_retries (λ k. counts k + refused_by p e k) (happen p e)
  unfolding happen
  happen-AllAccounted p counts (written now aggregate_id topic key payload) positive a =
      same-counts _ counts (λ k. counts k + 0) (λ k. omega arith)
        (write-AllAccounted R max_retries p counts now aggregate_id topic key payload positive a)
  happen-AllAccounted p counts (tick now deliver ending) positive a =
      tick-AllAccounted p counts now deliver ending a

  -- From an outbox that is accounted for (an empty one is, with no refusal counted), after any
  -- writes and ticks, with any deliveries and any transactions that are rolled back: a row is
  -- published only if Kafka has accepted a message with its id, and its retry count is the number
  -- of committed ticks in which Kafka refused it; a pending row was refused in fewer than
  -- `max_retries` committed ticks, and a failed one in exactly that many. A tick that is rolled
  -- back counts for nothing, though Kafka keeps what it accepted in it.
  pub history-AllAccounted :
      (p : Processor R) (counts : String → ℕ) (es : List Event)
      → 0 < max_retries
      → AllAccounted R max_retries counts p
      → AllAccounted R max_retries (refusals_after p counts es) (history p es)
  unfolding history refusals_after
  history-AllAccounted p counts [] positive a = a
  history-AllAccounted p counts (e ∷ es) positive a =
      history-AllAccounted (happen p e) (λ j. counts j + refused_by p e j) es positive
        (happen-AllAccounted p counts e positive a)
