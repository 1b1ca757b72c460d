-- ===== src/Checkout.antt =====
-- The checkout of the backend (backend/src/modules/orders/checkout.service.ts).
pub mod Rows
pub mod Confirm
pub mod Payment
pub mod Retry
pub mod Accounting
pub mod Retrying
pub mod Placed
pub mod Compensation
pub mod Success
