-- ===== src/Federation.antt =====
-- internal/federation/router.go: the cluster that an index belongs to.
pub mod Router
