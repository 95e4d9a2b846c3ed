-- ===== src/Ai.antt =====
-- The adapters of internal/ai: what they make of the answers of remote models. The calls themselves
-- are arguments.
pub mod Fence
pub mod Extractor
pub mod Files
pub mod Verifier
pub mod Embedder
pub mod Enhancer
