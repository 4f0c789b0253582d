-- ===== src/Govee.antt =====
-- src/devices/controllers/govee.rs: the controller of Govee lights.
pub mod Payload
pub mod Commands
pub mod Listener
pub mod Reports
pub mod Update
