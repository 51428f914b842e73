-- ===== src/Shared.antt =====
-- packages/shared: the parts of the shared library that carry logic.
pub mod Errors
pub mod Tx
pub mod Post
pub mod Retry
pub mod Rows
pub mod Idempotency
pub mod Replay
mod Tests
