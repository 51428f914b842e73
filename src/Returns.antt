-- ===== src/Returns.antt =====
-- services/returns: what a return pays back.
pub mod Refund
pub mod Types
pub mod Repository
pub mod Service
pub mod Reads
mod Updates
mod Approve
pub mod Refunded
pub mod Resume
pub mod Moves
pub mod Machine
pub mod Saga
pub mod Create
pub mod Tests
