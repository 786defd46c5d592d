-- ===== src/Proxy.antt =====
-- cmd/proxy/main.go: the handler for all requests that no other route takes.
pub mod Request
pub mod Gateway
pub mod Stages
pub mod Checks
pub mod Claimed
mod Bindings
mod Keyed
mod Examples
