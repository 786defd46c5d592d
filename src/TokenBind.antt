-- ===== src/TokenBind.antt =====
-- internal/tokenbind/binder.go: the first client that shows a token, by address and agent.
pub mod Binder
pub mod Kept
