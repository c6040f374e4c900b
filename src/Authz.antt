-- ===== src/Authz.antt =====
-- Authorization by permission code: src/authz.
pub mod Roles
pub mod Assignment
pub mod Matrix
pub mod Grants
pub mod Authorize
pub mod Tripwire
mod Tests
