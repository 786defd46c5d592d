-- ===== src/Webhook.antt =====
-- internal/webhook/authorizer.go: the decision of an external service.
pub mod Authorizer
