-- ===== src/Bus.antt =====
-- The message bus inside a process: pkg/bus.
pub mod Types
pub mod MessageBus
pub mod Delivery
pub mod Reached
pub mod Close
pub mod Late
mod Examples
