-- ===== src/Collector.antt =====
-- internal/collector: the reader of query statistics.
pub mod Reader
pub mod Tests
