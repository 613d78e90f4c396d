-- ===== src/Lib.antt =====
-- sql-fuse mounts a database as a file system. This library models the parts of it that decide
-- what a path means, what a file shows, what is cached and what is written, and states what they
-- promise.
--
-- A call of FUSE comes to `SQLFuseFS` (src/SQLFuseFS.cpp), which lets `PathRouter`
-- (src/PathRouter.cpp) parse the path, asks the schema manager whether the object exists, and
-- keeps the open files in `VirtualFileHandleManager` (src/VirtualFileHandleManager.cpp). A
-- `VirtualFile` (src/VirtualFile.cpp) takes its content from `CacheManager` (src/CacheManager.cpp)
-- or from the generators of the backend, buffers what is written, and hands the buffer to a write
-- handler when it is flushed. The backends write and read rows with `FormatConverter`
-- (src/FormatConverter.cpp) and build their statements with its four subclasses.
--
-- The modules:
-- Base: texts as lists of bytes, maps by association, machine words, decimal numbers.
-- Router: `PathRouter`. `parse` is the method of this name, Layout the intended tree of the mount
--   (docs/filesystem-structure.md), `render` the path of some parts.
-- Cache: `CacheManager`. The state is the record of the same name; `get`, `put`, `remove_key`,
--   `invalidate`, `prune_expired` and the others are its methods. The time of the clock is an
--   argument. The iterators of the map into the list are modelled by the keys that have one; an
--   erase through a missing iterator, which is undefined behaviour, gives `none`. Sizes are 64-bit
--   words. The loop of `evictIfNeeded` runs on fuel, the length of the list of keys, and each
--   round takes one key off, so the loop ends by its own test before the fuel does.
-- File: `VirtualFile`. `get_content`, `write`, `truncate` and `flush` are its methods. The
--   generators and the write handlers of the backends are parameters; what the theorems need of
--   them is stated as `Keeps` and `Careful`.
-- Fs: `SQLFuseFS` and the handle manager. Access has `isDatabaseAllowed` and `getattr`, Listing
--   has `readdir`, Calls the calls on open files, and Runs any sequence of the calls that FUSE
--   makes, with `unlink` of Backend. The answers of the schema manager are the record `Schema`;
--   what its lookups leave of the cache is a parameter of Runs. The counter of handles has 64
--   bits and wraps around.
-- Csv: `toCSV`, `escapeCSVField`, `splitCSVLine` and `parseCSV` of `FormatConverter`.
-- Sql: `buildInsert`, `buildUpdate`, `buildDelete`, `escapeIdentifier` and `escapeSQL` of
--   src/sqlite/SQLiteFormatConverter.cpp, src/mysql/MySQLFormatConverter.cpp,
--   src/postgresql/PostgreSQLFormatConverter.cpp and src/oracle/OracleFormatConverter.cpp. The
--   builders have one body up to the escaping, which is Statements. Lexer is an independent
--   description of how a database reads quoted names and strings: `standard` for SQLite,
--   PostgreSQL and Oracle, `backslashes` for MySQL. Sent has what SQLite and PostgreSQL are
--   given, `sql.c_str()`, which ends at a zero byte; MySQL and Oracle are given the length. The
--   recursion of `escapeIdentifier` runs on fuel, the length of the identifier, and each part is
--   shorter than the whole, so this is enough.
-- Pool: src/mysql/MySQLConnectionPool.cpp. `step` is one step of one thread: a section that runs
--   under the lock, or an attempt to connect between two such sections; `Reachable` are the states
--   that the constructor and any steps lead to. The state counts the threads by where they are in
--   `acquire`, and has the connections in use, which the class does not keep. The counters are
--   64-bit words. Pool.Postgresql is src/postgresql/PostgreSQLConnectionPool.cpp, which has the
--   same sections, Pool.Oracle src/oracle/OracleConnectionPool.cpp, and Pool.Sqlite
--   src/sqlite/SQLiteConnectionPool.cpp, whose operations run under the lock as a whole. Connect
--   has the connection strings of include/Config.hpp's `ConnectionConfig`, and Conninfo how libpq
--   reads one, after its documentation.
-- Schema: src/SchemaManager.cpp's four implementations, src/mysql/MySQLSchemaManager.cpp,
--   src/sqlite/SQLiteSchemaManager.cpp, src/postgresql/PostgreSQLSchemaManager.cpp and
--   src/oracle/OracleSchemaManager.cpp. For each, Queries has the statements, Lists, Details and
--   Rows the methods, and Statements, Intended and Reading what a database reads. A connection is
--   a function from a statement to its rows, `none` where it fails; during one method its answers
--   stay the same. Cached is the lookup of a list through the cache, Memo what it promises.
--   Kind has `parseDatabaseType`, with all four backends compiled in.
-- Errors: src/ErrorHandler.cpp and include/ErrorHandler.hpp. The codes of the MySQL headers are
--   the record `MysqlCodes`. The loop of `executeWithRetry` runs on fuel, one more than the
--   number of calls that are allowed. The waits are computed on 32 bits and wrap around, where
--   the source has undefined behaviour, from 25 failures on.
-- Backend: the write handlers of src/mysql/MySQLVirtualFile.cpp, src/sqlite/SQLiteVirtualFile.cpp,
--   src/postgresql/PostgreSQLVirtualFile.cpp and src/oracle/OracleVirtualFile.cpp, and `unlink` of
--   src/SQLFuseFS.cpp. The four classes have one body up to the statements, the error numbers and
--   the commit, which are the record `Dialect`; Write is the body. A `Database` answers by what
--   its connections did before, a list of the statements that were accepted and of the commits. The
--   pool gives a connection or throws; the null pointer that the Oracle pool may give is left out.
--   The parsers of JSON are parameters. Saved has these handlers in `flush` of File.
--
-- Outside Pool, the calls run one after another: the cache, a file and the table of handles each
-- hold a mutex for the whole of an operation, and the interleaving of the operations inside two
-- calls is not modelled. Offsets and sizes of writes are taken to be small enough that their sum
-- does not wrap.
--
-- Not modelled: the connections and result sets, the generators of the backends, what `statfs`
-- and `utimens` reply, the JSON conversions, the configuration and the set-up of the process,
-- which are calls of client libraries, or of other third-party code, for the most part.
pub mod Base
pub mod Router
pub mod Cache
pub mod File
pub mod Fs
pub mod Csv
pub mod Sql
pub mod Pool
pub mod Errors
pub mod Schema
pub mod Backend
