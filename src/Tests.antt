-- ===== src/Tests.antt =====
-- Concrete runs of the model, and the theorems at concrete inputs.
mod Steps
mod Fixtures
mod Events
mod Limiter
mod Accounts
mod Requests
mod Http
mod Config
mod Oidc
mod Sessions
mod Routes
