-- ===== src/Pkce.antt =====
-- internal/pkce/handler.go: the authorization code flow with PKCE.

pub mod Scopes
pub mod Words
pub mod Flow
pub mod Codes
pub mod Origin
mod Examples
