-- ===== src/Product.antt =====
-- services/product-service: the catalogue with its stock, and the saga participant for it.
pub mod Entity
pub mod Service
pub mod SagaController
pub mod Controller
pub mod Examples
mod Tests
