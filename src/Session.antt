-- ===== src/Session.antt =====
-- internal/session/manager.go: active sessions with limits per client.
pub mod Manager
pub mod Limits
mod Examples
