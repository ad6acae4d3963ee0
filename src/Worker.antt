-- ===== src/Worker.antt =====
-- The workers of pkg/worker: consumers of the bus.
pub mod Config
pub mod Process
pub mod Runs
pub mod Lifecycle
pub mod Stops
mod Examples
