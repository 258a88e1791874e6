-- ===== src/Shared/Messages.antt =====
-- packages/shared/src/interfaces: commands, replies and domain events. Amounts are in cents and
-- times in milliseconds.
use shop_microservices.Prelude.{ℕ, String, List}

pub record BaseCommand : Type 0 where
  pub command_id : String
  pub order_id : String
  pub correlation_id : String

pub record BaseOrderEvent : Type 0 where
  pub order_id : String
  pub user_id : String
  pub user_email : String
  pub correlation_id : String

pub record OrderCreatedEventItem : Type 0 where
  pub product_id : String
  pub name : String
  pub quantity : ℕ
  pub unit_price : ℕ

-- `{ productId, quantity }`
pub record StockItem : Type 0 where
  pub product_id : String
  pub quantity : ℕ

-- The same shape serves reserve-stock and release-stock.
pub record ReserveStockCommand : Type 0 where
  pub base : BaseCommand
  pub open base use *
  pub items : List StockItem

pub record ReleaseStockCommand : Type 0 where
  pub base : BaseCommand
  pub open base use *
  pub items : List StockItem

pub record ProcessPaymentCommand : Type 0 where
  pub base : BaseCommand
  pub open base use *
  pub user_id : String
  pub amount : ℕ

pub record StockReservedEvent : Type 0 where
  pub base : BaseCommand
  pub open base use *
  pub items : List OrderCreatedEventItem
  pub total : ℕ

-- Also `PaymentFailedEvent`, which has the same fields.
pub record StockReservationFailedEvent : Type 0 where
  pub base : BaseCommand
  pub open base use *
  pub reason : String

pub record PaymentProcessedEvent : Type 0 where
  pub base : BaseCommand
  pub open base use *
  pub transaction_id : String

pub record PaymentFailedEvent : Type 0 where
  pub base : BaseCommand
  pub open base use *
  pub reason : String

pub record OrderConfirmedEvent : Type 0 where
  pub base : BaseOrderEvent
  pub open base use *
  pub items : List OrderCreatedEventItem
  pub total : ℕ
  pub confirmed_at : ℕ

pub record OrderCancelledEvent : Type 0 where
  pub base : BaseOrderEvent
  pub open base use *
  pub reason : String
  pub cancelled_at : ℕ

pub record PdfGeneratedEvent : Type 0 where
  pub base : BaseOrderEvent
  pub open base use *
  pub pdf_path : String
  pub created_at : ℕ

pub record UserRegisteredEvent : Type 0 where
  pub user_id : String
  pub email : String

-- The JSON object in an outbox row or an envelope.
pub data Payload : Type 0 where
  reserve_stock : ReserveStockCommand → Payload
  release_stock : ReleaseStockCommand → Payload
  process_payment : ProcessPaymentCommand → Payload
  stock_reserved : StockReservedEvent → Payload
  stock_reservation_failed : StockReservationFailedEvent → Payload
  stock_released : BaseCommand → Payload
  payment_processed : PaymentProcessedEvent → Payload
  payment_failed : PaymentFailedEvent → Payload
  order_confirmed : OrderConfirmedEvent → Payload
  order_cancelled : OrderCancelledEvent → Payload
  pdf_generated : PdfGeneratedEvent → Payload
  user_registered : UserRegisteredEvent → Payload

-- `payload?.correlationId ?? ''`: a user-registered event has none.
unfoldable pub correlation_id_of : Payload → String
correlation_id_of (reserve_stock c) = c.correlation_id
correlation_id_of (release_stock c) = c.correlation_id
correlation_id_of (process_payment c) = c.correlation_id
correlation_id_of (stock_reserved e) = e.correlation_id
correlation_id_of (stock_reservation_failed e) = e.correlation_id
correlation_id_of (stock_released e) = e.correlation_id
correlation_id_of (payment_processed e) = e.correlation_id
correlation_id_of (payment_failed e) = e.correlation_id
correlation_id_of (order_confirmed e) = e.correlation_id
correlation_id_of (order_cancelled e) = e.correlation_id
correlation_id_of (pdf_generated e) = e.correlation_id
correlation_id_of (user_registered e) = ""
