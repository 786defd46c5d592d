-- ===== src/Ciba.antt =====
-- internal/ciba/handler.go: authentication over a back channel.
pub mod Handler
mod History
mod Outcomes
mod Examples
