-- ===== src/Ingestion.antt =====
-- The ingestion of telemetry (ingestion/).
pub mod Queue
pub mod Stream
pub mod RunSchema
pub mod Legacy
