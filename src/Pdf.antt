-- ===== src/Pdf.antt =====
-- services/pdf-service/src/pdf: pdf.service.ts and the handler of pdf.controller.ts. The files of the
-- output directory are the state; a receipt is the list of the texts that pdfkit is given. What the
-- disk does to a write is an argument.
pub mod Receipts
pub mod Redelivery
mod Examples
use Prim.Native.String.{◌++◌ as ◌++ₛ◌}
use shop_microservices.Prelude.{
  ℕ, ◌*◌, ◌/◌, ◌%◌, String, ◌==◌, Bool, true, false, Option, none, some, List, [], ◌∷◌, ◌++◌, map,
  if◌then◌else◌,
}
use shop_microservices.Prelude.Decimal.{show_number, to_fixed}
use shop_microservices.Exec.{Result, ok, err, Exec, pure, throw, modify, gets, ◌>>=◌, ◌>>◌}
use shop_microservices.Kafka.{KafkaEnvelope, Handler, SubscribeOptions}
use shop_microservices.Kafka.Producer.{Meta, Moment, ProducerRecord, publish}
use shop_microservices.Shared.{KafkaTopic, topic_name}
use shop_microservices.Shared.Messages.{
  OrderCreatedEventItem, OrderConfirmedEvent, PdfGeneratedEvent,
}

-- A file with what has reached it of a receipt.
pub record File : Type 0 where
  pub texts : List String
  pub is_complete : Bool

-- What happens to one `writePdf`: it finishes; it fails before the file is opened; or it fails after
-- the file was opened and some of the texts have reached it.
pub data WriteOutcome : Type 0 where
  finished : WriteOutcome
  not_opened : String → WriteOutcome
  broken_off : String → List String → WriteOutcome

pub record State : Type 0 where
  pub files : String → Option File
  pub sent : List ProducerRecord

abbrev pub put_file : String → File → (String → Option File) → String → Option File
put_file path file files other = if path == other then some file else files other

abbrev pub Action : Type 0 → Type 0
Action A = Exec String State A

-- `doc.text(…)` of one item of the order
unfoldable pub item_text : OrderCreatedEventItem → String
unfolding show_number to_fixed
item_text item =
    item.name
    ++ₛ ("  x"
        ++ₛ (show_number item.quantity
            ++ₛ ("  @ $"
                ++ₛ (to_fixed item.unit_price
                    ++ₛ ("  =  $" ++ₛ to_fixed (item.unit_price * item.quantity))))))

-- The texts of a receipt in their order; `show_date` is `toLocaleDateString`.
unfoldable pub receipt_texts : (ℕ → String) → OrderConfirmedEvent → List String
unfolding item_text to_fixed
receipt_texts show_date event =
    "Order Receipt"
    ∷ ("Order ID: " ++ₛ event.order_id)
    ∷ ("Customer: " ++ₛ event.user_email)
    ∷ ("Date: " ++ₛ show_date event.confirmed_at)
    ∷ "Items:"
    ∷ (map item_text event.items ++ (("Total: $" ++ₛ to_fixed event.total) ∷ []))

-- `path.join(this.pdfDir, …)` of a directory without a trailing slash and an id that is a uuid.
unfoldable pub pdf_path : String → String → String
pdf_path pdf_dir order_id = pdf_dir ++ₛ ("/order-" ++ₛ (order_id ++ₛ ".pdf"))

unfoldable pub write_pdf :
    (ℕ → String) → WriteOutcome → String → OrderConfirmedEvent → Action (Unit {0})
unfolding receipt_texts
write_pdf show_date finished path event s =
    let file : File = record { texts = receipt_texts show_date event; is_complete = true } in
    pure tt (record s { files = put_file path file s.files })
write_pdf show_date (not_opened error) path event s = throw error s
write_pdf show_date (broken_off error texts) path event s =
    let file : File = record { texts = texts; is_complete = false } in
    throw error (record s { files = put_file path file s.files })

-- `fsp.access(path)` of a file of the service's own
unfoldable pub exists : String → State → Bool
exists path s = elim (s.files path) [ none ↦ false | some file ↦ true ]

unfoldable pub pdf_event : String → ℕ → OrderConfirmedEvent → PdfGeneratedEvent
pdf_event path now event = record { base = event.base; pdf_path = path; created_at = now }

-- The service's environment: its directory, its name in Kafka, and the serialiser of its events.
pub record Config : Type 0 where
  pub pdf_dir : String
  pub source : String
  pub show_date : ℕ → String
  pub stringify : KafkaEnvelope PdfGeneratedEvent → String

-- What one run of the handler meets.
pub record Circumstances : Type 0 where
  pub moment : Moment
  pub write : WriteOutcome
  pub refusal : Option String

module _ (config : Config) where
  unfoldable pub emit : Circumstances → String → OrderConfirmedEvent → Action (Unit {0})
  unfolding publish pdf_event
  emit c path event s =
      let published =
        publish config.stringify config.source c.moment c.refusal
          (topic_name KafkaTopic.pdf_generated) (pdf_event path (Moment.now c.moment) event)
          (record { correlation_id = some event.correlation_id; message_id = none }) s.sent in
      (published.0, record s { sent = published.1 })

  unfoldable pub generate_order_pdf : Circumstances → OrderConfirmedEvent → Action (Unit {0})
  unfolding pdf_path exists write_pdf emit
  generate_order_pdf c event =
      let path = pdf_path config.pdf_dir event.order_id in
      gets (exists path) >>= λ found.
      (if found then pure tt else write_pdf config.show_date c.write path event)
      >> emit c path event

  -- `faces n` is what the n-th attempt meets.
  unfoldable pub subscription : (ℕ → Circumstances) → SubscribeOptions OrderConfirmedEvent State
  unfolding generate_order_pdf
  subscription faces = record {
    topic = topic_name KafkaTopic.order_confirmed;
    handler = λ attempt e. generate_order_pdf (faces attempt) e.payload;
    max_retries = none;
  }
