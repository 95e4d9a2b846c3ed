-- ===== src/Pipeline/Dedup/Known.antt =====
-- Exact deduplication in execute of internal/pipeline/pipeline.go.
use coeus.Storage.World.{World}
