-- ===== src/Payment.antt =====
-- services/payment-service: the wallets, the payments, and the saga participant for them.
pub mod Entity
pub mod Wallet
pub mod SagaController
pub mod WalletsController
pub mod Examples
