-- ===== src/Routing.antt =====
-- pkg/routing: which agent answers a message, and under which session key.
pub mod AgentId
pub mod Ids
pub mod SessionKey
pub mod Keys
pub mod Route
pub mod Matches
pub mod Fits
pub mod Searches
pub mod Levels
pub mod Accounts
mod Examples
