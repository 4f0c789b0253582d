-- ===== src/Simple.antt =====
-- src/devices/controllers/simple.rs: the controller of devices that connect over TCP and sign
-- their messages.
pub mod Requests
pub mod Codec
pub mod Frame
pub mod Authentic
pub mod RoundTrip
pub mod Messages
pub mod Hello
pub mod Isolation
pub mod Listener
pub mod Connection
pub mod Delivery
