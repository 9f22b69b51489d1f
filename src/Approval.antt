-- ===== src/Approval.antt =====
-- internal/approval: risk classes, the approval decision, grants and the code guard.
pub mod Shell
pub mod Risk
pub mod Classify
pub mod Decision
pub mod Grant
pub mod CreateRisk
pub mod CodeGuard
pub mod GuardLaws
pub mod GrantLaws
pub mod Gaps
mod Tests
