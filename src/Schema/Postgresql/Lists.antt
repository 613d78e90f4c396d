-- ===== src/Schema/Postgresql/Lists.antt =====
-- The lists of names of src/postgresql/PostgreSQLSchemaManager.cpp. A result without rows is that of
-- a statement that failed: its list is empty, and not kept.
use sql_fuse.Base.{Bool, List, Option, Text, [], codes, none, some, ℕ}
use sql_fuse.Cache.Types.{CacheManager}
use sql_fuse.Fs.Types.{Query, answer}
use sql_fuse.Schema.Server.{◌>>=◌, Server, names_at, rows_or_none, contains}
use sql_fuse.Schema.Cached.{make_key, Fetched, unkept, listed, Lookup, cached_list}
use sql_fuse.Schema.Postgresql.Queries.{
  databases_sql, schemas_sql, tables_sql, views_sql, procedures_sql, functions_sql, triggers_sql,
}

abbrev pub fetch_names : Server → Text → Fetched
fetch_names server sql = elim (server sql) [
  | none ↦ unkept []
  | some rows ↦ listed (names_at 0 rows)
]

-- `find(...) != end()` on a list that was looked up.
abbrev pub listed_in : Text → Lookup → Option (CacheManager × Query Bool)
listed_in name none = none
listed_in name (some (c, names)) = some (c, (do ns ← names; answer (contains name ns)))

unfoldable pub get_databases : Server → ℕ → ℕ → CacheManager → Lookup
unfolding cached_list
get_databases server now later c =
    cached_list (codes "databases") now later (fetch_names server databases_sql) c

unfoldable pub database_exists :
    Server → Text → ℕ → ℕ → CacheManager → Option (CacheManager × Query Bool)
unfolding get_databases
database_exists server database now later c = listed_in database (get_databases server now later c)

unfoldable pub get_schemas : Server → Text → List Text
get_schemas server database = names_at 0 (rows_or_none (server schemas_sql))

unfoldable pub get_tables : Server → Text → ℕ → ℕ → CacheManager → Lookup
unfolding cached_list make_key
get_tables server database now later c =
    cached_list (make_key database (codes "tables") []) now later (fetch_names server tables_sql) c

unfoldable pub table_exists :
    Server → Text → Text → ℕ → ℕ → CacheManager → Option (CacheManager × Query Bool)
unfolding get_tables
table_exists server database table now later c =
    listed_in table (get_tables server database now later c)

unfoldable pub get_views : Server → Text → ℕ → ℕ → CacheManager → Lookup
unfolding cached_list make_key
get_views server database now later c =
    cached_list (make_key database (codes "views") []) now later (fetch_names server views_sql) c

unfoldable pub get_procedures : Server → Text → List Text
get_procedures server database = names_at 0 (rows_or_none (server procedures_sql))

unfoldable pub get_functions : Server → Text → List Text
get_functions server database = names_at 0 (rows_or_none (server functions_sql))

unfoldable pub get_triggers : Server → Text → List Text
get_triggers server database = names_at 0 (rows_or_none (server triggers_sql))
