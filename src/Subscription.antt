-- ===== src/Subscription.antt =====
-- Subscriptions: src/server/ua_subscription.c, src/server/ua_subscription_manager.c and
-- src/server/ua_services_subscription.c.
pub mod Items
pub mod Notifications
pub mod Manager
pub mod Retransmission
pub mod Services
pub mod Lifetime
pub mod Bounds
pub mod Acknowledgement
pub mod Updates
pub mod States
pub mod Loss
pub mod Jobs
pub mod Leftover
mod JobTests
mod Tests
