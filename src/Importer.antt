-- ===== src/Importer.antt =====
-- internal/importer: rows of a file become questions.
pub mod Report
pub mod Rows
pub mod Parse
pub mod Service
