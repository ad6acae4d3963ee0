-- ===== src/Session.antt =====
-- pkg/session: the conversations.
pub mod Manager
pub mod History
pub mod Files
mod Examples
pub mod Evictor
