-- ===== src/Cache.antt =====
-- internal/cache/cache.go: responses that are kept for a while.
pub mod Store
pub mod Bounds
mod Examples
