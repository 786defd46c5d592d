-- ===== src/Registration.antt =====
-- internal/registration: clients that register themselves.
pub mod Handler
mod Access
mod Examples
