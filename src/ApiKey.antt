-- ===== src/ApiKey.antt =====
-- internal/apikey/store.go: long-lived keys that stand in for tokens.
pub mod Store
pub mod Lifecycle
mod Examples
