-- ===== src/Keyring.antt =====
-- internal/keyring: the keys that sign tokens.
pub mod Ring
mod Window
mod Examples
