-- ===== src/Auth.antt =====
-- The package app/auth.
pub mod Domain
pub mod Ports
pub mod Persistence
pub mod Service
pub mod Invariant
pub mod Atomic
pub mod Login
pub mod Registration
pub mod AccessTokens
pub mod RefusedTokens
pub mod Sessions
pub mod JwtSigner
pub mod Argon2Hasher
pub mod Rotation
pub mod Api
pub mod Deps
