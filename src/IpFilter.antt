-- ===== src/IpFilter.antt =====
-- internal/ipfilter/filter.go: which addresses a client may come from.
pub mod Filter
pub mod Checks
mod Examples
