-- ===== src/Executor.antt =====
-- internal/executor: the execution of approved commands.
pub mod Parse
pub mod Gate
pub mod Agreement
mod Tests
