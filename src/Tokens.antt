-- ===== src/Tokens.antt =====
-- The one-time codes kept in Redis: services/TokenService.go.
pub mod Store
pub mod Service
pub mod Lifecycle
