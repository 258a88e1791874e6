-- ===== src/Order.antt =====
-- services/order-service: the order aggregate, its saga and the orchestrator between them.
pub mod Status
pub mod Entity
pub mod Saga
pub mod Persistence
pub mod Orchestrator
pub mod UseCases
pub mod Controller
pub mod ReplyController
pub mod OutboxProcessor
pub mod Examples
mod Tests
