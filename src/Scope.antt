-- ===== src/Scope.antt =====
-- internal/scope/mapper.go: the backend roles that scopes stand for.
pub mod Mapper
pub mod Roles
mod Examples
