-- ===== src/Exchange.antt =====
-- internal/exchange: tokens for the tokens of other providers.
pub mod Handler
mod Granting
mod Examples
