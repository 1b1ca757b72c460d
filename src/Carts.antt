-- ===== src/Carts.antt =====
-- The cart module of the backend (backend/src/modules/cart).
pub mod Rows
pub mod Service
pub mod Views
pub mod Revalidation
pub mod Current
pub mod Adding
