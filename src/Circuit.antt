-- ===== src/Circuit.antt =====
-- internal/circuit/breaker.go: the circuit breaker in front of the upstream.
pub mod Breaker
pub mod Histories
pub mod Described
mod Examples
