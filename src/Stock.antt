-- ===== src/Stock.antt =====
-- The stock part of the products module of the backend.
pub mod Rows
pub mod Reservation
pub mod RowLaws
pub mod Counters
pub mod Steps
pub mod Presence
pub mod Restocking
pub mod Availability
pub mod Selling
pub mod Reserving
pub mod Soundness
pub mod Movements
pub mod Adjusting
pub mod Adjusted
