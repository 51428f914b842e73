-- ===== src/Inventory.antt =====
-- services/inventory: stock levels, reservations and movements.
pub mod Types
pub mod Allocation
pub mod Plan
pub mod Levels
pub mod Reservations
pub mod Service
pub mod Operations
pub mod Accounts
pub mod Reserve
pub mod Settle
pub mod Adjust
pub mod Transfer
pub mod Lifecycle
pub mod Releases
pub mod Expiry
pub mod Repeat
pub mod Stock
pub mod Tests
