-- ===== src/Kafka/Dispatch.antt =====
-- A message that reaches a handler is handled once or ends in the dead-letter topic.
use Prim.Native.String.{◌++◌ as ◌++ₛ◌}
use shop_microservices.Prelude.{
  none, true, [], ◌∷◌, ◌++◌, ◌-◌, Bool-cases, ltb, ℕ, zero, suc, ◌+◌, ◌≤◌, ◌<◌, String, ◌==◌, Bool,
  false, Option, some, List, ◌≡◌, ◌⊎◌, inl, inr, refl, subst, arith,
}
use shop_microservices.Exec.{Result, ok, err}
use shop_microservices.Kafka.{
  KafkaDlqEnvelope, find_subscription, attempts_of, dispatch, route, KafkaEnvelope, Handler,
  SubscribeOptions, World, send_to_dlq, after_attempt, is_zero, attempt_each,
}

module _ {P S : Type 0} where
  -- A failed attempt leaves the state of the service as it was.
  abbrev pub IsAtomic : Handler P S → Type 0
  IsAtomic handler =
      (n : ℕ) (envelope : KafkaEnvelope P) (s s' : S) (e : String)
      → handler n envelope s ≡ (err e, s')
      → s' ≡ s

Outcome-cases :
    {S : Type 0} (o : Result String (Unit {0}) × S)
    → ((s : S) × (o ≡ (ok tt, s))) ⊎ ((e : String) × (s : S) × (o ≡ (err e, s)))
Outcome-cases (ok a, s) = inl (s, refl)
Outcome-cases (err e, s) = inr (e, s, refl)

module _ {P S : Type 0} (now : ℕ) (dlq_fails : Bool) (sub : SubscribeOptions P S)
    (envelope : KafkaEnvelope P) (w : World P S) where
  -- Every attempt from number `first` up to, but not including, number `first + count` fails.
  abbrev pub AllFail : ℕ → ℕ → Type 0
  AllFail first count =
      (n : ℕ)
      → first ≤ n
      → n < first + count
      → (e : String) × (sub.handler n envelope w.state ≡ (err e, w.state))

  -- The letter about the message, with the error of the last attempt.
  abbrev pub letter_with : String → ℕ → KafkaDlqEnvelope P
  letter_with e total_attempts = record {
    original_envelope = envelope;
    failed_topic = sub.topic;
    failed_at = now;
    error = e;
    total_attempts = total_attempts;
  }

  -- One attempt goes through after only failures and no letter is sent, or all fail, the state stays
  -- and one letter is sent, about the last failure, where the broker takes it.
  abbrev pub Settled : ℕ → ℕ → ℕ → World P S → Type 0
  Settled max_retries first count w' =
      ((n : ℕ) × (first ≤ n)
        × (n < first + count)
        × AllFail first (n - first)
        × ((s : S) × (sub.handler n envelope w.state ≡ (ok tt, s)) × (w' ≡ record w { state = s })))
      ⊎ (AllFail first count
          × ((n : ℕ) × (e : String) × (suc n ≡ first + count)
              × (sub.handler n envelope w.state ≡ (err e, w.state))
              × (w'.state ≡ w.state)
              × (dlq_fails ≡ true → w'.dead_letters ≡ w.dead_letters)
              × (dlq_fails ≡ false
                  → w'.dead_letters
                    ≡ w.dead_letters ++ ((sub.topic ++ₛ ".dlq", letter_with e max_retries) ∷ []))))

  first_or_later : (first n : ℕ) → first ≤ n → (first ≡ n) ⊎ (suc first ≤ n)
  first_or_later first n le = elim (Bool-cases (ltb first n)) [
    | inl more ↦ inr (ground (arith, more))
    | inr less ↦ inl (ground (arith, less, le))
  ]

  one_more :
      (first count : ℕ) (e : String)
      → sub.handler first envelope w.state ≡ (err e, w.state)
      → AllFail (suc first) count
      → AllFail first (suc count)
  one_more first count e fails rest n low high = elim (first_or_later first n low) [
    | inl same ↦ (e, subst (λ m. sub.handler m envelope w.state ≡ (err e, w.state)) same fails)
    | inr later ↦ rest n later (omega (arith, high))
  ]

  none_before : (first : ℕ) → AllFail first (first - first)
  none_before first n low high = absurd (omega (arith, low, high))

  later-Settled :
      (max_retries first left : ℕ) (e : String) (w' : World P S)
      → sub.handler first envelope w.state ≡ (err e, w.state)
      → Settled max_retries (suc first) left w'
      → Settled max_retries first (suc left) w'
  later-Settled max_retries first left e w' fails (inl (n, low, high, before, handled)) = inl (
    n,
    omega (arith, low),
    omega (arith, high),
    subst (AllFail first) (omega (arith, low)) (one_more first (n - suc first) e fails before),
    handled,
  )
  later-Settled max_retries first left e w' fails
        (inr (all, (n, last, at, thrown, same, down, up))) =
      inr (one_more first left e fails all, (n, last, omega (arith, at), thrown, same, down, up))

  stays_put :
      IsAtomic sub.handler
      → (n : ℕ) (s : S) (e : String) → sub.handler n envelope w.state ≡ (err e, s)
      → sub.handler n envelope w.state ≡ (err e, w.state)
  stays_put atomic n s e fails =
      subst (λ x. sub.handler n envelope w.state ≡ (err e, x)) (atomic n envelope w.state s e fails)
        fails

  send_to_dlq_state :
      (max_retries : ℕ) (e : String)
      → (send_to_dlq P now dlq_fails sub.topic envelope e max_retries w).state ≡ w.state
  unfolding send_to_dlq
  send_to_dlq_state max_retries e = ground arith

  pub attempt_each-Settled :
      IsAtomic sub.handler
      → (max_retries first left : ℕ)
      → Settled max_retries first
          (suc left)
          (attempt_each P now dlq_fails sub envelope max_retries first (suc left) w)
  unfolding attempt_each after_attempt is_zero send_to_dlq
  attempt_each-Settled atomic max_retries first zero =
      elim (Outcome-cases (sub.handler first envelope w.state)) [
        | inl (s, runs) ↦
            rw runs (inl (first, omega arith, omega arith, none_before first, (s, runs, refl)))
        | inr (e, s, fails) ↦
            let stays = stays_put atomic first s e fails in
            rw stays (
              inr (
                one_more first 0 e stays (λ n low high. absurd (omega (arith, low, high))),
                (
                  first,
                  e,
                  omega arith,
                  stays,
                  rw (send_to_dlq_state max_retries e) refl,
                  λ down. rw (send_to_dlq, down) refl,
                  λ up. rw (send_to_dlq, up) refl,
                ),
              ))
      ]
  attempt_each-Settled atomic max_retries first (suc left) =
      elim (Outcome-cases (sub.handler first envelope w.state)) [
        | inl (s, runs) ↦
            rw runs (inl (first, omega arith, omega arith, none_before first, (s, runs, refl)))
        | inr (e, s, fails) ↦
            let stays = stays_put atomic first s e fails in
            rw stays (
              later-Settled max_retries first (suc left) e
                (attempt_each P now dlq_fails sub envelope max_retries (suc first) (suc left) w)
                stays (attempt_each-Settled atomic max_retries (suc first) left))
      ]

module _ {P S : Type 0} (now : ℕ) (dlq_fails : Bool) where
  -- The message in the topic has a handler that rolls back when it throws and that is to be tried at
  -- least once, `max_retries` times where the subscription gives a number and three times where not.
  -- Then either some attempt succeeds, after failures only, its effect is the only one and nothing is
  -- sent to the dead-letter topic; or every one of the allowed attempts fails, the service's state is
  -- as it was, and one letter is sent to the topic's dead-letter topic, unless the broker refuses
  -- that too: it holds the message, its topic, the time, the error of the last attempt and the number
  -- of attempts.
  pub dispatch-Settled :
      (parse : String → Option (KafkaEnvelope P)) (subscriptions : List (SubscribeOptions P S))
      (topic raw : String) (w : World P S) (sub : SubscribeOptions P S) (envelope : KafkaEnvelope P)
      (k : ℕ)
      → IsAtomic sub.handler
      → raw == "" ≡ false
      → parse raw ≡ some envelope
      → find_subscription P now dlq_fails topic subscriptions ≡ some sub
      → elim sub.max_retries [ none ↦ 3 | some n ↦ n ] ≡ suc k
      → Settled now dlq_fails sub envelope w
          (suc k)
          1
          (suc k)
          (dispatch P now dlq_fails parse subscriptions topic (some raw) w)
  unfolding dispatch route attempts_of
  dispatch-Settled parse subscriptions topic raw w sub envelope k atomic text parsed found tries =
      rw (dispatch, text, parsed, found, route, tries)
        (attempt_each-Settled now dlq_fails sub envelope w atomic (suc k) 1 k)
