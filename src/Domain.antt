-- ===== src/Domain.antt =====
-- The package internal/domain: errors, questions, sessions, images and jobs.
pub mod Errors
pub mod Types
pub mod Validate
pub mod Normalize
