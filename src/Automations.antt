-- ===== src/Automations.antt =====
-- src/automations: tasks that send requests by themselves.
pub mod Dependencies
pub mod Sunset
