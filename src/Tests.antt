-- ===== src/Tests.antt =====
-- The theorems at concrete inputs.
mod Migrations
mod Auth
mod Web
mod Setup
mod Jwt
mod HttpClient
mod Storage
mod Core
mod Lifespan
mod Adapters
mod Sessions
mod Users
mod Infrastructure
