-- ===== src/Orders/Booking.antt =====
-- The reserved stock is the orders': of every variant, the reserved counter is the sum of the
-- units of the orders that hold a reservation. Each method of `OrdersService` keeps this.
pub mod Defs
pub mod Changes
pub mod Orderly
pub mod Approval
pub mod Payments
pub mod Expiring
pub mod Cancelling
pub mod Requests
pub mod Aftermath
