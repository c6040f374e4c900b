-- ===== src/Members.antt =====
-- Membership administration: src/memberships, over the tables that it reads and writes and the
-- triggers that PostgreSQL runs on them.
pub mod Store
pub mod Tx
pub mod Access
pub mod Triggers
pub mod Roles
pub mod Lifecycle
pub mod Requests
mod Tests
