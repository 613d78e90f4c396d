-- ===== src/Schema/Sqlite/Rows.antt =====
-- The rest of src/sqlite/SQLiteSchemaManager.cpp: the statements of objects, the server, its variables,
-- and the rows of a table.
use sql_fuse.Base.{
  List, Option, Text, [], codes, if◌then◌else◌, insert, is_empty, none, some, text_eq, ℕ, ◌++◌, ◌∷◌,
}
use sql_fuse.Cache.Types.{CacheManager}
use sql_fuse.Cache.Drop
use sql_fuse.Schema.Types.{UserInfo, ServerInfo, new_server}
use sql_fuse.Schema.Sqlite.Queries.{
  create_statement_sql, global_variables_sql, global_variables_pragma_sql, row_ids_sql,
  row_count_sql,
}
use sql_fuse.Schema.Sqlite.Lists.{Row, Server, string_at, strings_at, execute}
use sql_fuse.Schema.Sqlite.Details.{get_primary_key_column, first_count}

-- The `type` in `sqlite_master` of a type of object.
unfoldable pub object_type : Text → Option Text
object_type type =
    if text_eq type (codes "TABLE")
    then some (codes "table")
    else if text_eq type (codes "VIEW")
    then some (codes "view")
    else if text_eq type (codes "TRIGGER")
    then some (codes "trigger")
    else if text_eq type (codes "INDEX")
    then some (codes "index")
    else none

abbrev pub first_string : List Row → Text
first_string [] = []
first_string (row ∷ rows) = string_at row 0

unfoldable pub get_create_statement : Option Server → Text → Text → Text → Text
unfolding object_type create_statement_sql
get_create_statement conn database object type = elim (object_type type) [
  | none ↦ []
  | some kind ↦ first_string (execute conn (create_statement_sql database kind object))
]

-- The library says its version.
unfoldable pub get_server_info : Text → ServerInfo
get_server_info libversion = record new_server {
  version = libversion;
  version_comment = codes "SQLite";
  hostname = codes "localhost";
  port = 0;
}

unfoldable pub get_users : List UserInfo
get_users = []

abbrev pub pragmas : List Text
pragmas =
    codes "auto_vacuum"
    ∷ codes "cache_size"
    ∷ codes "encoding"
    ∷ codes "journal_mode"
    ∷ codes "page_size"
    ∷ codes "synchronous"
    ∷ codes "temp_store"
    ∷ codes "wal_autocheckpoint"
    ∷ []

unfoldable pub compile_options : List Row → List (Text × Text) → List (Text × Text)
compile_options [] vars = vars
compile_options (row ∷ rows) vars =
    compile_options rows (insert (codes "compile_" ++ string_at row 0) (codes "enabled") vars)

-- Each pragma that gives a row is a variable.
abbrev pub with_pragma : Text → List Row → List (Text × Text) → List (Text × Text)
with_pragma pragma [] vars = vars
with_pragma pragma (row ∷ rows) vars = insert pragma (string_at row 0) vars

unfoldable pub pragma_values : Option Server → List Text → List (Text × Text) → List (Text × Text)
unfolding global_variables_pragma_sql
pragma_values conn [] vars = vars
pragma_values conn (pragma ∷ rest) vars =
    pragma_values conn rest
      (with_pragma pragma (execute conn (global_variables_pragma_sql pragma)) vars)

unfoldable pub get_global_variables : Option Server → List (Text × Text)
unfolding compile_options pragma_values
get_global_variables conn =
    pragma_values conn pragmas (compile_options (execute conn global_variables_sql) [])

unfoldable pub get_session_variables : Option Server → List (Text × Text)
unfolding get_global_variables
get_session_variables conn = get_global_variables conn

unfoldable pub get_row_ids : Option Server → Text → Text → ℕ → ℕ → List Text
unfolding get_primary_key_column row_ids_sql
get_row_ids conn database table limit offset =
    let key = get_primary_key_column conn table in
    let column = if is_empty key then codes "rowid" else key in
    strings_at 0 (execute conn (row_ids_sql database table column limit offset))

unfoldable pub get_row_count : Option Server → Text → Text → ℕ
unfolding row_count_sql
get_row_count conn database table = first_count (execute conn (row_count_sql database table))

unfoldable pub invalidate_table : Text → Text → CacheManager → Option CacheManager
unfolding Drop.invalidate_table
invalidate_table database table c = Drop.invalidate_table database table c

unfoldable pub invalidate_database : Text → CacheManager → Option CacheManager
unfolding Drop.invalidate_database
invalidate_database database c = Drop.invalidate_database database c

unfoldable pub invalidate_all : CacheManager → CacheManager
unfolding Drop.clear
invalidate_all c = Drop.clear c
