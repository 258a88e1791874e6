-- ===== src/Pdf/Redelivery.antt =====
-- What the consumer's next attempt makes of a receipt that was broken off.
use shop_microservices.Prelude.{
  Bool, ℕ, String, ◌==◌, eq_refl, ◌≡◌, refl, false, inl, inr, Option, none, some, List, [], ◌∷◌,
  ◌++◌,
}
use shop_microservices.Exec.{Result, ok}
use shop_microservices.Kafka.{
  KafkaEnvelope, World, dispatch, find_subscription, attempt_each, after_attempt, route,
}
use shop_microservices.Shared.{KafkaTopic, topic_name}
use shop_microservices.Shared.Messages.{OrderConfirmedEvent}
use shop_microservices.Pdf.{
  State, Config, Circumstances, broken_off, put_file, generate_order_pdf, subscription,
}
use shop_microservices.Pdf.Receipts.{
  path, announcement, remains, Publishes, generate_present, generate_broken_off,
}

module _ (config : Config) (event : OrderConfirmedEvent) where
  accepted-Publishes :
      (c : Circumstances) (s : State) (r : Result String (Unit {0}) × State)
      → c.refusal ≡ none
      → Publishes config c event s r
      → r ≡ (ok tt, record s { sent = s.sent ++ (announcement config c event ∷ []) })
  accepted-Publishes c s r accepted (inl (_, e)) = e
  accepted-Publishes c s r accepted (inr (error, refused, e)) = absurd (cc (accepted, refused))

  -- The state after an attempt that broke off.
  abbrev broken : Circumstances → List String → State → State
  broken c texts s = record s {
    files = put_file (path config c event) (remains config c event texts) s.files;
  }

  generate_again :
      (first second : Circumstances) (s : State) (texts : List String)
      → second.refusal ≡ none
      → generate_order_pdf config second event (broken first texts s) ≡ (
        ok tt,
        record (broken first texts s) { sent = s.sent ++ (announcement config second event ∷ []) },
      )
  generate_again first second s texts accepted =
      accepted-Publishes second (broken first texts s)
        (generate_order_pdf config second event (broken first texts s)) accepted
        (generate_present config second event (broken first texts s)
          (remains config first event texts) (rw (eq_refl (path config first event))))

module _ (config : Config) (faces : ℕ → Circumstances)
    (parse : String → Option (KafkaEnvelope OrderConfirmedEvent)) where
  -- When the first attempt to write a receipt breaks off after its file was opened, and the broker
  -- accepts the next attempt's message, the consumer's own retry announces the receipt as generated:
  -- nothing goes to the dead-letter topic, and the file holds only the texts that had reached it.
  pub dispatch_announces_broken :
      (now : ℕ) (dlq_fails : Bool) (raw error : String) (texts : List String)
      (envelope : KafkaEnvelope OrderConfirmedEvent) (w : World OrderConfirmedEvent State)
      → raw == "" ≡ false
      → parse raw ≡ some envelope
      → w.state.files (path config (faces 1) envelope.payload) ≡ none
      → Circumstances.write (faces 1) ≡ broken_off error texts
      → Circumstances.refusal (faces 2) ≡ none
      → let w' =
          dispatch OrderConfirmedEvent now dlq_fails parse
            (subscription config faces ∷ [])
            (topic_name KafkaTopic.order_confirmed)
            (some raw)
            w in
        (w'.dead_letters ≡ w.dead_letters)
        × (w'.state.sent ≡ w.state.sent ++ (announcement config (faces 2) envelope.payload ∷ []))
        × (w'.state.files (path config (faces 1) envelope.payload)
            ≡ some (remains config (faces 1) envelope.payload texts))
  unfolding dispatch route attempt_each subscription find_subscription topic_name
  dispatch_announces_broken now dlq_fails raw error texts envelope w text parsed absent breaks
        accepted =
      rw
        (
          dispatch,
          text,
          parsed,
          route,
          attempt_each,
          generate_broken_off config (faces 1) envelope.payload w.state error texts absent breaks,
          after_attempt,
          generate_again config envelope.payload (faces 1) (faces 2) w.state texts accepted,
        )
        (refl, refl, rw (eq_refl (path config (faces 1) envelope.payload)))
