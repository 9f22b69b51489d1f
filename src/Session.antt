-- ===== src/Session.antt =====
-- internal/session: conversations and turns.
pub mod State
pub mod Writes
pub mod Turn
pub mod TurnLaws
mod Tests
