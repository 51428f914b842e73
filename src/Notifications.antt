-- ===== src/Notifications.antt =====
-- services/notifications: webhook endpoints and the deliveries to them.
pub mod Deliveries
pub mod Due
pub mod Service
pub mod Reads
pub mod Claims
pub mod Attempts
pub mod Outcome
mod Tests
