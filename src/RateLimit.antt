-- ===== src/RateLimit.antt =====
-- internal/ratelimit/limiter.go: token buckets per client.
pub mod Limiter
pub mod Bounds
mod Examples
