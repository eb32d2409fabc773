-- ===== src/Infrastructure.antt =====
-- The package app/infrastructure.
pub mod RateLimit
pub mod Idempotency
pub mod HttpClient
pub mod Storage
