-- ===== src/Dispatch.antt =====
-- src/devices/dispatch.rs.
pub mod Notification
pub mod Request
pub mod Laws
pub mod Tasks
pub mod Queries
