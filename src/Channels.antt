-- ===== src/Channels.antt =====
-- pkg/channels: the clients of chat services.
pub mod Dedupe
pub mod Ring
pub mod Window
pub mod Split
pub mod Scans
pub mod Words
pub mod Plain
pub mod Endless
pub mod Sends
pub mod Retries
pub mod Manager
pub mod Handed
pub mod Placeholders
mod Examples
mod ManagerExamples
