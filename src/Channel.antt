-- ===== src/Channel.antt =====
-- Secure channels: src/ua_securechannel.c, src/server/ua_securechannel_manager.c and the links to
-- connections of src/ua_connection.c.
pub mod State
pub mod Links
pub mod Manager
pub mod Services
pub mod Lists
pub mod Invariant
pub mod Lifecycle
pub mod Tokens
pub mod Renewal
mod Tests
