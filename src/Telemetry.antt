-- ===== src/Telemetry.antt =====
-- backend/internal/telemetry: normalization of events (event.go) and ingestion of batches (store.go).
pub mod Event
pub mod Ingest
pub mod Normal
pub mod Batch
pub mod Retry
