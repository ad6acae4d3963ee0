-- ===== src/Agent.antt =====
-- pkg/agent: the loop between the language model and the tools.
pub mod Context
pub mod Sanitized
pub mod Compression
pub mod Loop
pub mod Turns
pub mod Bounds
pub mod Transcript
pub mod Rounds
pub mod Summary
pub mod Run
pub mod Answer
pub mod Forgotten
pub mod ToolLoop
pub mod Agreement
pub mod Replay
pub mod Examples
