-- ===== src/Catalog.antt =====
-- services/catalog: prices, price rules and their caches.
pub mod Rounding
pub mod Nearest
pub mod Types
pub mod Pricing
pub mod Prices
mod Keys
pub mod Cached
pub mod Winner
pub mod Bounds
pub mod Products
pub mod Updated
mod Tests
