-- ===== src/Orders.antt =====
-- The orders module of the backend: the states of an order, and what is decided from them.
pub mod Status
pub mod Lifecycle
pub mod Booking
pub mod RowLaws
pub mod PolicyLaws
pub mod Outcomes
pub mod Policies
pub mod Expiry
pub mod Cancellation
pub mod AfterCancellation
