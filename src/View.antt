-- ===== src/View.antt =====
-- The services of src/server/ua_services_view.c, over the nodes of src/server/ua_nodes.h, in the
-- build without UA_EXTERNAL_NAMESPACES.
pub mod Nodes
pub mod Subtypes
pub mod Hierarchy
pub mod Ending
pub mod Standard
pub mod Search
pub mod Description
pub mod Browse
pub mod Points
pub mod Services
pub mod Bounds
pub mod Paging
pub mod Client
pub mod Following
pub mod Translate
pub mod Reaching
mod Tests
mod PageTests
