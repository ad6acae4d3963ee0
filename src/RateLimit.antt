-- ===== src/RateLimit.antt =====
-- The limits on each user's requests: pkg/ratelimit/ratelimit.go.
pub mod Bucket
pub mod Limiter
pub mod Daily
mod Examples
