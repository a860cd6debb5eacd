-- ===== src/Repos.antt =====
-- The repositories, repos/*.go: what they ask of the database and what they make of its answers.
pub mod Database
pub mod Filters
pub mod Rows
pub mod Users
pub mod Realms
pub mod Clients
pub mod Jobs
pub mod Credentials
pub mod ClaimMappers
pub mod Scopes
pub mod Roles
pub mod RoleImplications
pub mod UserRoles
pub mod PasswordHistory
pub mod UserDevices
pub mod RefreshTokens
pub mod Sessions
