-- ===== src/Oidc.antt =====
-- Authorization and tokens for clients: services/ClientService.go,
-- services/RefreshTokenService.go and services/OidcService.go.
pub mod Env
pub mod Clients
pub mod RefreshTokens
pub mod Grants
pub mod Registration
pub mod Checks
pub mod Authorize
pub mod Endpoints
pub mod Codes
