-- ===== src/Shared.antt =====
-- The package app/shared.
pub mod Values
pub mod Errors
pub mod Types
pub mod ProblemDetails
