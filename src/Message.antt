-- ===== src/Message.antt =====
-- The processing of the messages on a connection: src/server/ua_server_binary.c.
pub mod Processing
pub mod Delivery
pub mod Requests
pub mod Permission
pub mod Connecting
pub mod Handshake
pub mod Waiting
mod Tests
