-- ===== src/Shared.antt =====
-- packages/shared: the constants and the messages that the services exchange.
pub mod Messages
pub mod Pages
pub mod Roles
pub mod InternalGuard
use shop_microservices.Prelude.{String, Bool, true, false}

pub data Role : Type 0 where
  user admin moderator : Role

pub data OutboxStatus : Type 0 where
  pending published failed : OutboxStatus

unfoldable pub is_pending : OutboxStatus → Bool
is_pending OutboxStatus.pending = true
is_pending OutboxStatus.published = false
is_pending OutboxStatus.failed = false

-- `KAFKA_TOPICS`
pub data KafkaTopic : Type 0 where
  reserve_stock release_stock process_payment : KafkaTopic
  stock_reserved stock_reservation_failed stock_released : KafkaTopic
  payment_processed payment_failed : KafkaTopic
  order_confirmed order_cancelled : KafkaTopic
  pdf_generated : KafkaTopic
  user_registered : KafkaTopic

unfoldable pub topic_name : KafkaTopic → String
topic_name reserve_stock = "orders.reserve-stock"
topic_name release_stock = "orders.release-stock"
topic_name process_payment = "orders.process-payment"
topic_name stock_reserved = "orders.stock-reserved"
topic_name stock_reservation_failed = "orders.stock-reservation-failed"
topic_name stock_released = "orders.stock-released"
topic_name payment_processed = "orders.payment-processed"
topic_name payment_failed = "orders.payment-failed"
topic_name order_confirmed = "orders.order-confirmed"
topic_name order_cancelled = "orders.order-cancelled"
topic_name pdf_generated = "pdf.pdf-generated"
topic_name user_registered = "users.user-registered"
