-- ===== src/Introspect.antt =====
-- internal/introspect: what a token says of itself, and a cache of it.
pub mod Handler
mod Stale
mod Examples
