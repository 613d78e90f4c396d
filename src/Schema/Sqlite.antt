-- ===== src/Schema/Sqlite.antt =====
-- src/sqlite/SQLiteSchemaManager.cpp.
pub mod Queries
pub mod Statements
pub mod Intended
pub mod Reading
pub mod Lists
pub mod Details
pub mod Rows
