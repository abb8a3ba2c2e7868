-- ===== src/Connection.antt =====
-- The assembly of messages from the bytes that a connection receives, in src/ua_connection.c.
pub mod Assembly
pub mod Scanning
pub mod Delivery
pub mod Loss
mod Tests
