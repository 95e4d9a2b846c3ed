-- ===== src/Http.antt =====
-- The HTTP layer: internal/auth and internal/httpapi.
pub mod Tokens
pub mod Passwords
pub mod Guards
pub mod Routes
pub mod Auth
