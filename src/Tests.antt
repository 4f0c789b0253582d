-- ===== src/Tests.antt =====
-- A concrete instance of every interface, runs of the model on it, and the theorems at inputs where
-- their hypotheses hold.
pub mod Instance
mod Registry
mod Tplink
mod Simple
pub mod Broadcast
mod Automations
pub mod Krypton
mod Clients
mod Sunset
mod Govee
mod Scenes
pub mod Connections
pub mod Main
pub mod Greeting
mod Boot
mod Joins
pub mod Evening
pub mod Threads
mod Crowd
mod Delivered
