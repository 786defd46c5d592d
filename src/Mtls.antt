-- ===== src/Mtls.antt =====
-- internal/mtls/mtls.go: clients by their certificates.
pub mod Clients
