-- ===== src/Invitations.antt =====
-- Membership invitations: src/invitations.
pub mod Store
pub mod Token
pub mod Message
pub mod Statements
pub mod Request
pub mod Create
pub mod Revoke
pub mod Users
pub mod Joining
pub mod Accept
pub mod Requests
pub mod Leases
pub mod Sender
pub mod Delivery
mod Tests
