-- ===== src/Session.antt =====
-- Sessions: src/ua_session.c, src/server/ua_session_manager.c and src/server/ua_services_session.c.
pub mod Manager
pub mod Services
pub mod Activation
pub mod Tokens
mod Tests
pub mod Creation
