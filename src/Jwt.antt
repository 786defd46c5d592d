-- ===== src/Jwt.antt =====
-- internal/jwt/validator.go: tokens that other issuers signed.
pub mod Keys
pub mod Validator
pub mod Fresh
pub mod Sound
mod Examples
