-- ===== src/Par.antt =====
-- internal/par: authorization requests that are pushed in advance.
pub mod Handler
mod Once
mod Examples
