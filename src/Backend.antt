-- ===== src/Backend.antt =====
-- The files of the backends: src/mysql/MySQLVirtualFile.cpp, src/sqlite/SQLiteVirtualFile.cpp,
-- src/postgresql/PostgreSQLVirtualFile.cpp and src/oracle/OracleVirtualFile.cpp, and `unlink` of
-- src/SQLFuseFS.cpp.
pub mod Types
pub mod Write
pub mod Mysql
pub mod Postgresql
pub mod Oracle
pub mod Sqlite
pub mod Written
pub mod Copied
pub mod Saved
pub mod Spelled
pub mod Quotes
pub mod Unlink
pub mod Removed
mod Tests
