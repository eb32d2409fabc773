-- ===== src/Observability.antt =====
-- The package app/observability.
pub mod Health
pub mod Correlation
pub mod Logging
pub mod AccessLog
