-- ===== src/Token.antt =====
-- internal/token/manager.go: the life cycle of access and refresh tokens.
pub mod State
pub mod Clients
pub mod Grant
pub mod Refresh
pub mod Revoke
pub mod Maintain
pub mod Invariant
pub mod Steps
pub mod Cleanup
pub mod Issuing
pub mod Trace
pub mod Rotation
pub mod Replay
pub mod Revocation
pub mod Forever
pub mod Reuse
pub mod Gaps
pub mod Access
pub mod Upkeep
pub mod Store
pub mod Recovery
mod Examples
mod StoreExamples
