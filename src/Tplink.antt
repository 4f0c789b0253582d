-- ===== src/Tplink.antt =====
-- src/devices/controllers/tplink.rs: the controller of TP-Link switches.
pub mod Cipher
pub mod Payload
pub mod Listener
pub mod Commands
pub mod Update
pub mod Reports
