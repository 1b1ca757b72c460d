-- ===== src/Auth.antt =====
-- The login of the backend (backend/src/modules/auth).
pub mod Login
pub mod Attempts
pub mod Throttle
