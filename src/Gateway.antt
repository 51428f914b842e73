-- ===== src/Gateway.antt =====
-- services/gateway: who may pass.
pub mod Access
pub mod Limits
mod Tests
