-- ===== src/Users.antt =====
-- The users module of the backend: the address book of a customer.
pub mod Rows
pub mod Addresses
pub mod DefaultAddress
pub mod Removal
pub mod NewAddress
pub mod Books
