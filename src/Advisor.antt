-- ===== src/Advisor.antt =====
-- internal/advisor: recommendations on tables, indexes and settings.
pub mod Config
pub mod Vacuum
pub mod Index
pub mod Agreement
mod Shown
pub mod Tests
