-- ===== src/Cron.antt =====
-- pkg/cron: scheduled jobs.
pub mod Service
pub mod Commands
pub mod Runs
pub mod Due
pub mod Found
pub mod Checks
mod Examples
