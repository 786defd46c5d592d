-- ===== src/Idempotency.antt =====
-- internal/idempotency: requests that are answered once.
pub mod Store
mod Replay
mod Examples
