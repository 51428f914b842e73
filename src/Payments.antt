-- ===== src/Payments.antt =====
-- services/payments: payment intents, their capture and their voiding.
pub mod Types
pub mod Intents
pub mod Rates
pub mod Reads
pub mod Capture
pub mod Once
pub mod Tests
