-- ===== src/NodeStore.antt =====
-- The node store of src/server/ua_nodestore.c: an open-addressing hash table with double hashing.
pub mod Hash
pub mod Table
pub mod Operations
pub mod Equality
pub mod Probe
pub mod Cycle
pub mod Lookup
mod Tests
mod ResizeTests
pub mod Removal
pub mod Termination
pub mod Editing
mod Counting
pub mod Resizing
