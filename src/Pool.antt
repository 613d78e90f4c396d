-- ===== src/Pool.antt =====
-- src/mysql/MySQLConnectionPool.cpp, src/sqlite/SQLiteConnectionPool.cpp and
-- src/oracle/OracleConnectionPool.cpp: the connections that the threads share.
pub mod Types
pub mod Steps
pub mod Counts
pub mod Sections
pub mod Guards
pub mod Balance
pub mod Sqlite
pub mod Bounds
pub mod Postgresql
pub mod Oracle
pub mod Connect
pub mod Conninfo
pub mod Listed
pub mod Settings
pub mod OracleSections
pub mod Capacity
mod Tests
