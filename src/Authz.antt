-- ===== src/Authz.antt =====
-- internal/authz: grants of namespaces and clusters to users.
pub mod Scope
pub mod ScopeLaws
mod Tests
