-- ===== src/Settlement.antt =====
-- services/settlement: the ledger and the settlement runs.
pub mod Ledger
pub mod Runs
pub mod Posted
pub mod Drafts
pub mod Totals
mod Tests
