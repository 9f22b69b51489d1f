-- ===== src/Tools.antt =====
-- internal/tools: the check of tool calls against the scope of the user.
pub mod Scope
pub mod ScopeLaws
mod Tests
