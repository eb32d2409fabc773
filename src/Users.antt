-- ===== src/Users.antt =====
-- The package app/users.
pub mod Persistence
pub mod Service
pub mod Lost
pub mod Deps
pub mod Access
