-- ===== src/Api.antt =====
-- The interface of the administration: handlers/api.
pub mod Query
pub mod Endpoints
pub mod Lists
