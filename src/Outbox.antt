-- ===== src/Outbox.antt =====
-- The transactional outbox: the worker of src/worker/outbox-worker.ts over the SQL functions that own
-- the table.
pub mod Store
pub mod Sql
pub mod Worker
pub mod Publish
mod Tests
