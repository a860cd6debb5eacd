-- ===== src/Roles.antt =====
pub mod Cache
pub mod Service
pub mod Closure
pub mod Recalculate
