-- ===== src/Store.antt =====
-- internal/store: where tokens are kept, and a store for each tenant.
pub mod Interface
pub mod Memory
pub mod File
pub mod MultiTenant
mod Refinement
mod Poison
mod Examples
