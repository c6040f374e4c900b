-- ===== src/Tenancy.antt =====
-- Which workshop a request works for: src/tenancy/tenant-selection.ts and src/tenancy/tenant-context.ts.
pub mod Uuid
pub mod Selection
pub mod Context
mod Tests
