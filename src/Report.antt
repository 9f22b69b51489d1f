-- ===== src/Report.antt =====
-- internal/report: the report of an inspection.
pub mod Health
pub mod HealthLaws
mod Tests
