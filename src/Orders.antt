-- ===== src/Orders.antt =====
-- services/orders: placing, cancelling and shipping orders.
pub mod Types
pub mod Repository
pub mod Clients
pub mod Place
pub mod Rows
pub mod Attempt
pub mod Settled
pub mod Placed
pub mod Fulfil
pub mod Export
pub mod Csv
pub mod Cancel
pub mod Ship
pub mod Progress
pub mod Tests
