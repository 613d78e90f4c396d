-- ===== src/Schema/Mysql/Lists.antt =====
-- The lists of names of src/mysql/MySQLSchemaManager.cpp.
use sql_fuse.Base.{Bool, List, Option, Text, [], codes, none, some, ℕ}
use sql_fuse.Cache.Types.{CacheManager}
use sql_fuse.Fs.Types.{Query, answer}
use sql_fuse.Schema.Server.{◌>>=◌, Server, ask, names_at, contains}
use sql_fuse.Schema.Cached.{make_key, Fetched, fails, listed, Lookup, cached_list}
use sql_fuse.Schema.Mysql.Queries.{
  databases_sql, tables_sql, views_sql, procedures_sql, functions_sql, triggers_sql,
}

-- The names in the first column of the answer, or the exception.
abbrev pub fetch_names : Server → Text → Fetched
fetch_names server sql = elim (server sql) [ none ↦ fails | some rows ↦ listed (names_at 0 rows) ]

-- `find(...) != end()` on a list that was looked up.
abbrev pub listed_in : Text → Lookup → Option (CacheManager × Query Bool)
listed_in name none = none
listed_in name (some (c, names)) = some (c, (do ns ← names; answer (contains name ns)))

unfoldable pub get_databases : Server → ℕ → ℕ → CacheManager → Lookup
unfolding cached_list
get_databases server now later c =
    cached_list (codes "databases") now later (fetch_names server databases_sql) c

unfoldable pub database_exists :
    Server → Text → ℕ → ℕ → CacheManager → Option (CacheManager × Query Bool)
unfolding get_databases
database_exists server database now later c = listed_in database (get_databases server now later c)

unfoldable pub get_tables : Server → Text → ℕ → ℕ → CacheManager → Lookup
unfolding cached_list make_key tables_sql
get_tables server database now later c =
    cached_list (make_key database (codes "tables") []) now later
      (fetch_names server (tables_sql database)) c

unfoldable pub table_exists :
    Server → Text → Text → ℕ → ℕ → CacheManager → Option (CacheManager × Query Bool)
unfolding get_tables
table_exists server database table now later c =
    listed_in table (get_tables server database now later c)

unfoldable pub get_views : Server → Text → ℕ → ℕ → CacheManager → Lookup
unfolding cached_list make_key views_sql
get_views server database now later c =
    cached_list (make_key database (codes "views") []) now later
      (fetch_names server (views_sql database)) c

unfoldable pub get_procedures : Server → Text → Query (List Text)
unfolding procedures_sql
get_procedures server database = do
  rows ← ask server (procedures_sql database)
  answer (names_at 0 rows)

unfoldable pub get_functions : Server → Text → Query (List Text)
unfolding functions_sql
get_functions server database = do
  rows ← ask server (functions_sql database)
  answer (names_at 0 rows)

unfoldable pub get_triggers : Server → Text → Query (List Text)
unfolding triggers_sql
get_triggers server database = do
  rows ← ask server (triggers_sql database)
  answer (names_at 0 rows)
