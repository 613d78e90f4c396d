-- ===== src/Schema/Mysql.antt =====
-- src/mysql/MySQLSchemaManager.cpp.
pub mod Queries
pub mod Statements
pub mod Intended
pub mod Reading
pub mod Lists
pub mod Details
pub mod Rows
