-- ===== src/Schema/Postgresql.antt =====
-- src/postgresql/PostgreSQLSchemaManager.cpp.
pub mod Queries
pub mod Statements
pub mod Intended
pub mod Reading
pub mod Lists
pub mod Details
pub mod Rows
