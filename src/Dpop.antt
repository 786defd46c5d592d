-- ===== src/Dpop.antt =====
-- internal/dpop/dpop.go: proofs of possession of a key.
pub mod Proofs
