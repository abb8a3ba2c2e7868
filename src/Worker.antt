-- ===== src/Worker.antt =====
-- The repeated jobs of src/server/ua_server_worker.c.
pub mod Jobs
pub mod Order
pub mod Progress
pub mod Runs
pub mod States
pub mod Overflow
mod Tests
