-- ===== src/Auth.antt =====
-- The login flow: handlers/auth and the services that it calls.
pub mod Env
pub mod Services
pub mod Steps
pub mod NextStep
pub mod Handlers
pub mod Guards
pub mod Devices
pub mod Password
pub mod Finish
