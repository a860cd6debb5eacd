-- ===== src/Sqlb.antt =====
-- The SQL query builder, sqlb/*.go.
pub mod Syntax
pub mod Writer
pub mod Build
pub mod Arguments
pub mod Numbering
pub mod Text
pub mod Query
pub mod Fragment
pub mod Select
pub mod Insert
pub mod Update
pub mod Delete
pub mod With
