-- ===== src/Ingest.antt =====
-- internal/ingest/server.go: the ingestion server.
pub mod Wire
pub mod Rows
pub mod Convert
pub mod Health
pub mod Persist
pub mod Handle
pub mod Tests
