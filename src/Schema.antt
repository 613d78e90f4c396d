-- ===== src/Schema.antt =====
-- The schema managers: what they ask their databases, what they make of the answers, and which of
-- the lists they keep in the cache.
pub mod Types
pub mod Kind
pub mod Server
pub mod Cached
pub mod Mysql
pub mod Sqlite
pub mod Postgresql
pub mod Oracle
pub mod Lines
pub mod Memo
pub mod Refines
pub mod Reading
mod Tests
