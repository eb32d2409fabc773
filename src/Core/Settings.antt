-- ===== src/Core/Settings.antt =====
-- The classes of app/core/config/settings.py, with the environment variables, the defaults and the
-- bounds of their fields.
pub mod Basics
pub mod Limits
pub mod Web
pub mod App
pub mod Bounds
