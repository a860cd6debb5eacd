-- ===== src/Tests.antt =====
-- Concrete runs of the model, and a world in which its hypotheses hold.
pub mod Accounts
pub mod Registration
pub mod Api
pub mod Codec
pub mod World
pub mod Login
pub mod Tokens
pub mod Queries
pub mod Store
pub mod Ioc
pub mod Endpoints
pub mod Repos
pub mod Roles
pub mod Grants
pub mod Jobs
pub mod Authorize
