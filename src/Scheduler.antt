-- ===== src/Scheduler.antt =====
-- internal/checks/scheduler.go: one tick of the scheduler of checks. The stats store's answers, the
-- advisory lock and the notifier are arguments.
pub mod Assemble
pub mod Tick
pub mod Notified
pub mod Tests
