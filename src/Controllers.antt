-- ===== src/Controllers.antt =====
-- src/devices/controllers/mod.rs: the controllers that are enabled, and the dispatch to the one
-- that a device's configuration names.
pub mod Dispatch
pub mod Emits
pub mod Listen
pub mod Made
pub mod New
pub mod Reports
