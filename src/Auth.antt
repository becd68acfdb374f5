-- ===== src/Auth.antt =====
-- shared/auth and the authentication of services/api-gateway.
pub mod Tokens
pub mod Middleware
pub mod Handlers
