-- ===== src/Tests.antt =====
-- Concrete runs: the data, and the applications of the theorems to it.
pub mod Data
pub mod StockCases
pub mod OrderCases
pub mod PaymentCases
pub mod ShopData
pub mod ShopCases
pub mod CheckoutCases
pub mod PostSaleCases
pub mod AuthCases
