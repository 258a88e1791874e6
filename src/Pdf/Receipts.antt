-- ===== src/Pdf/Receipts.antt =====
-- What is announced of a receipt and what is in the file.
use Prim.Native.String.{◌++◌ as ◌++ₛ◌}
use shop_microservices.Prelude.{
  ◌*◌, map, subst, String, ◌==◌, eq_refl, ◌≡◌, refl, sym, true, false, ◌⊎◌, inl, inr, Option, none,
  some, List, [], ◌∷◌, ◌++◌, Option-cases,
}
use shop_microservices.Prelude.Decimal.{show_number, to_fixed}
use shop_microservices.Exec.{Result, ok, err}
use shop_microservices.Kafka.Producer.{Moment, ProducerRecord, envelope_of, record_of, publish}
use shop_microservices.Shared.{KafkaTopic, topic_name}
use shop_microservices.Shared.Messages.{OrderConfirmedEvent, OrderCreatedEventItem}
use shop_microservices.Pdf.{
  File, WriteOutcome, finished, not_opened, broken_off, State, put_file, receipt_texts, item_text,
  pdf_path, write_pdf, exists, pdf_event, Config, Circumstances, emit, generate_order_pdf,
}

module _ (config : Config) (c : Circumstances) (event : OrderConfirmedEvent) where
  abbrev pub path : String
  path = pdf_path config.pdf_dir event.order_id

  -- The message that announces the receipt.
  abbrev pub announcement : ProducerRecord
  announcement = record_of config.stringify (topic_name KafkaTopic.pdf_generated) (
      envelope_of config.source c.moment (pdf_event path (Moment.now c.moment) event)
        (record { correlation_id = some event.correlation_id; message_id = none }))

  -- The line of one item: its name, quantity, unit price and their product.
  abbrev pub item_line : OrderCreatedEventItem → String
  item_line item =
      item.name
      ++ₛ ("  x"
          ++ₛ (show_number item.quantity
              ++ₛ ("  @ $"
                  ++ₛ (to_fixed item.unit_price
                      ++ₛ ("  =  $" ++ₛ to_fixed (item.unit_price * item.quantity))))))

  -- The complete receipt: the order, its customer, the day, every item and the total.
  abbrev pub receipt : File
  receipt = record {
    texts =
        "Order Receipt"
        ∷ ("Order ID: " ++ₛ event.order_id)
        ∷ ("Customer: " ++ₛ event.user_email)
        ∷ ("Date: " ++ₛ config.show_date event.confirmed_at)
        ∷ "Items:"
        ∷ (map item_line event.items ++ (("Total: $" ++ₛ to_fixed event.total) ∷ []));
    is_complete = true;
  }

  -- The run ends by publishing: the announcement is sent, or the refusal is the error.
  abbrev pub Publishes : State → Result String (Unit {0}) × State → Type 0
  Publishes s r =
      ((c.refusal ≡ none) × (r ≡ (ok tt, record s { sent = s.sent ++ (announcement ∷ []) })))
      ⊎ ((error : String) × (c.refusal ≡ some error) × (r ≡ (err error, s)))

  emit-Publishes : (s : State) → Publishes s (emit config c path event s)
  unfolding emit
  emit-Publishes s = elim (Option-cases c.refusal) [
    | inl accepted ↦ inl (accepted, rw (emit, publish, accepted))
    | inr (error, refused) ↦ inr (error, refused, rw (emit, publish, refused))
  ]

  -- The run with the file that it finds.
  pub generate_present :
      (s : State) (file : File)
      → s.files path ≡ some file
      → Publishes s (generate_order_pdf config c event s)
  unfolding generate_order_pdf exists
  generate_present s file e = rw (generate_order_pdf, exists, e) (emit-Publishes s)

  -- The state that a finished write leaves.
  written : State → State
  written s = record s { files = put_file path receipt s.files }

  generate_finished :
      (s : State)
      → s.files path ≡ none
      → c.write ≡ finished
      → Publishes (written s) (generate_order_pdf config c event s)
  unfolding generate_order_pdf exists written receipt_texts item_text
  generate_finished s e w =
      rw (generate_order_pdf, exists, e, w, write_pdf) (emit-Publishes (written s))

  generate_not_opened :
      (s : State) (error : String)
      → s.files path ≡ none
      → c.write ≡ not_opened error
      → generate_order_pdf config c event s ≡ (err error, s)
  unfolding generate_order_pdf exists
  generate_not_opened s error e w = rw (generate_order_pdf, exists, e, w, write_pdf)

  abbrev pub remains : List String → File
  remains texts = record { texts = texts; is_complete = false }

  pub generate_broken_off :
      (s : State) (error : String) (texts : List String)
      → s.files path ≡ none
      → c.write ≡ broken_off error texts
      → generate_order_pdf config c event s
        ≡ (err error, record s { files = put_file path (remains texts) s.files })
  unfolding generate_order_pdf exists
  generate_broken_off s error texts e w = rw (generate_order_pdf, exists, e, w, write_pdf)

  -- No run before this one left the file of the receipt unfinished.
  abbrev pub IsSound : State → Type 0
  IsSound s = (s.files path ≡ none) ⊎ (s.files path ≡ some receipt)

  pub record Announced (s : State) (r : Result String (Unit {0}) × State) : Type 0 where
    pub succeeds :
        r.0 ≡ ok tt → (r.1.files path ≡ some receipt) × (r.1.sent ≡ s.sent ++ (announcement ∷ []))
    pub fails : (error : String) → r.0 ≡ err error → (r.1.sent ≡ s.sent)
    pub others_stay : (other : String) → path == other ≡ false → r.1.files other ≡ s.files other

  -- A run that fails and writes at most its own file.
  Announced-err :
      (s : State) (error : String) (files : String → Option File)
      → ((other : String) → path == other ≡ false → files other ≡ s.files other)
      → Announced s (err error, record s { files = files })
  Announced-err s error files same = record {
    succeeds = λ h. absurd (cc h);
    fails = λ e h. refl;
    others_stay = same;
  }

  -- A run that publishes, with the receipt in place.
  Announced-Publishes :
      (s : State) (files : String → Option File) (r : Result String (Unit {0}) × State)
      → files path ≡ some receipt
      → ((other : String) → path == other ≡ false → files other ≡ s.files other)
      → Publishes (record s { files = files }) r
      → Announced s r
  Announced-Publishes s files r there same (inl (accepted, e)) =
      subst (Announced s) (sym e) (record {
        succeeds = λ h. (there, refl);
        fails = λ error h. absurd (cc h);
        others_stay = same;
      })
  Announced-Publishes s files r there same (inr (error, refused, e)) =
      subst (Announced s) (sym e) (Announced-err s error files same)

  write-cases :
      (w : WriteOutcome)
      → (w ≡ finished)
        ⊎ ((error : String) × (w ≡ not_opened error))
        ⊎ ((error : String) × (texts : List String) × (w ≡ broken_off error texts))
  write-cases finished = inl refl
  write-cases (not_opened error) = inr (inl (error, refl))
  write-cases (broken_off error texts) = inr (inr (error, texts, refl))

  put_other :
      (s : State) (file : File) (other : String)
      → path == other ≡ false
      → put_file path file s.files other ≡ s.files other
  put_other s file other h = rw h

  -- Whatever happens to the write and the publish: a run that succeeds leaves the complete receipt
  -- in its file (the order's id, the customer's email, the day, a line for each item and the
  -- total) and announces it once, a run that fails announces nothing, and no other file changes.
  -- The condition is that the file is absent or holds that receipt, so that no earlier run left it
  -- unfinished.
  pub generate_order_pdf-Announced :
      (s : State) → IsSound s → Announced s (generate_order_pdf config c event s)
  unfolding written
  generate_order_pdf-Announced s (inr there) =
      Announced-Publishes s s.files (generate_order_pdf config c event s) there (λ other h. refl)
        (generate_present s receipt there)
  generate_order_pdf-Announced s (inl absent) = elim (write-cases c.write) [
    | inl w ↦
        Announced-Publishes s (put_file path receipt s.files) (generate_order_pdf config c event s)
          (rw (eq_refl path)) (put_other s receipt) (generate_finished s absent w)
    | inr (inl (error, w)) ↦
        subst (Announced s) (sym (generate_not_opened s error absent w))
          (Announced-err s error s.files (λ other h. refl))
    | inr (inr (error, texts, w)) ↦
        subst (Announced s) (sym (generate_broken_off s error texts absent w)) (
          Announced-err s error (put_file path (remains texts) s.files)
            (put_other s (remains texts)))
  ]
