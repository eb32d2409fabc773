-- ===== src/Auth/Rotation/Returns.antt =====
-- A good token is rotated: `refresh` of app/auth/service.py returns.
pub mod Rows
pub mod Service
