-- ===== src/Core.antt =====
-- The package app/core.
pub mod Config
pub mod Settings
pub mod Wiring
pub mod Lifespan
