-- ===== src/Gateway.antt =====
-- services/gateway: the public entrance. It authenticates, checks roles and hands each request on
-- to a service with the identity of the user in headers.
pub mod Proxy
pub mod Guards
pub mod Jwt
pub mod Filter
pub mod Health
pub mod Handlers
pub mod Routes
