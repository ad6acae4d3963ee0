-- ===== src/Providers.antt =====
-- pkg/providers: the fallback chain over language-model providers.
pub mod Types
pub mod ModelRef
pub mod Cooldown
pub mod Regex
pub mod Classify
pub mod Fallback
pub mod Candidates
mod Examples
pub mod Messages
pub mod StoredCalls
