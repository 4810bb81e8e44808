-- ===== src/Audit.antt =====
-- internal/store/audit_hash.go, internal/store/config.go: the tamper-evident audit log.
pub mod Canonical
pub mod Hash
pub mod Log
pub mod Verify
pub mod Keeps
pub mod Tamper
pub mod Tests
