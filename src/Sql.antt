-- ===== src/Sql.antt =====
-- The statements that are built for the databases: src/sqlite/SQLiteFormatConverter.cpp,
-- src/mysql/MySQLFormatConverter.cpp, src/postgresql/PostgreSQLFormatConverter.cpp and
-- src/oracle/OracleFormatConverter.cpp.
pub mod Statements
pub mod Escapes
pub mod Sqlite
pub mod Mysql
pub mod Postgresql
pub mod Oracle
pub mod Lexer
pub mod Quoting
pub mod Names
pub mod Pieces
pub mod Meaning
pub mod Whole
pub mod Sent
mod Tests
pub mod Spaced
