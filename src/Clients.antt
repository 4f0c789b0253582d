-- ===== src/Clients.antt =====
-- src/server_backends/: what the servers tell their clients.
pub mod Catalog
pub mod Connection
pub mod Http
pub mod Isolation
pub mod Tcp
pub mod Websocket
pub mod Listener
pub mod Messages
pub mod Order
pub mod Protocol
pub mod Responses
pub mod Same
pub mod Service
