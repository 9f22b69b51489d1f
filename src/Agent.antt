-- ===== src/Agent.antt =====
-- internal/agent: the loop of an agent run, as far as it decides what is executed.
pub mod Key
pub mod KeyLaws
pub mod Gate
pub mod GateLaws
pub mod Refusals
pub mod ShellGate
pub mod Remembered
pub mod Grants
pub mod Batch
pub mod BatchLaws
pub mod Chat
pub mod Rounds
pub mod ChatLaws
pub mod ChatCalls
pub mod ChatEnds
mod Tests
mod ChatTests
mod RememberedTests
