-- ===== src/Krypton.antt =====
-- src/devices/controllers/krypton.rs: the controller of devices that connect over TLS.
pub mod Certs
pub mod Codec
pub mod Connection
pub mod Delivery
pub mod Greeting
pub mod Hello
pub mod Isolation
pub mod Listener
pub mod Messages
pub mod Relays
pub mod Requests
pub mod Tls
