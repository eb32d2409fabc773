-- ===== src/Api.antt =====
-- The package app/api.
pub mod Errors
pub mod Pagination
pub mod SecurityHeaders
