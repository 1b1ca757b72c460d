-- ===== src/Payments.antt =====
-- The payments module of the backend.
pub mod Status
pub mod Ledger
pub mod Refunds
pub mod Balance
pub mod FullPayment
pub mod Crediting
pub mod Processing
pub mod Settling
pub mod RefundSteps
