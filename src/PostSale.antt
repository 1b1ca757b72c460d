-- ===== src/PostSale.antt =====
-- Changes and returns after the sale (backend/src/modules/orders/returns).
pub mod Rows
pub mod Requests
pub mod Resolution
pub mod Units
pub mod Decisions
