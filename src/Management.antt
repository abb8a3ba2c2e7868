-- ===== src/Management.antt =====
-- The references between nodes in src/server/ua_services_nodemanagement.c, and the editing of nodes
-- in src/server/ua_services_attribute.c, in the build without UA_MULTITHREADING.
pub mod References
pub mod Services
pub mod Nodes
pub mod Editing
pub mod Linking
pub mod Unset
pub mod Loss
mod Tests
