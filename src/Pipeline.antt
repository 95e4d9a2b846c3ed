-- ===== src/Pipeline.antt =====
-- internal/pipeline: a job's way from an image to questions.
pub mod Ports
pub mod Backoff
pub mod Extract
pub mod Failure
pub mod Dedup
pub mod Verify
pub mod Run
pub mod Worker
