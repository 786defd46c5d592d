-- ===== src/Cedar.antt =====
-- internal/cedar: access policies and their evaluation.
pub mod Engine
pub mod Tenant
pub mod Parser
mod Termination
mod Printing
pub mod Decisions
pub mod Globs
pub mod Conditions
mod Examples
mod ParserExamples
