-- ===== src/Schema/Postgresql/Rows.antt =====
-- The rest of src/postgresql/PostgreSQLSchemaManager.cpp: the statements of objects, the server, its
-- users and variables, and the rows of a table.
use sql_fuse.Base.{
  List, Option, Text, [], codes, false, if◌then◌else◌, is_empty, map, none, pos, some, text_eq,
  to_unsigned, ℕ, ◌∷◌,
}
use sql_fuse.Cache.Types.{CacheManager}
use sql_fuse.Cache.Drop
use sql_fuse.Fs.Types.{Query, answer}
use sql_fuse.Schema.Types.{UserInfo, ServerInfo, new_server}
use sql_fuse.Schema.Server.{
  ◌>>=◌, Row, Server, cell, text_at, names_at, stoi, rows_or_none, variables_of, first_number,
}
use sql_fuse.Schema.Postgresql.Queries.{
  create_statement_table_sql, create_statement_view_sql, create_statement_function_sql,
  server_info_version_sql, server_info_uptime_sql, server_info_activity_sql, users_sql,
  global_variables_sql, row_ids_sql, row_count_sql,
}
use sql_fuse.Schema.Postgresql.Details.{first_text, get_primary_key_column}

unfoldable pub create_sql : Text → Text → Option Text
unfolding create_statement_table_sql create_statement_view_sql create_statement_function_sql
create_sql object type =
    if text_eq type (codes "TABLE")
    then some (create_statement_table_sql object)
    else if text_eq type (codes "VIEW")
    then some (create_statement_view_sql object)
    else if text_eq type (codes "FUNCTION")
    then some (create_statement_function_sql object)
    else none

unfoldable pub get_create_statement : Server → Text → Text → Text → Text
unfolding create_sql
get_create_statement server database object type = elim (create_sql object type) [
  | none ↦ []
  | some sql ↦ first_text (rows_or_none (server sql))
]

unfoldable pub with_version : List Row → ServerInfo → Query ServerInfo
with_version [] info = answer info
with_version (row ∷ rows) info = do
  port ← elim (cell row 2) [ none ↦ answer (pos 5432) | some port ↦ stoi port ]
  answer (record info {
    version = text_at row 0;
    hostname = text_at row 1;
    port = to_unsigned 16 port;
  })

unfoldable pub get_server_info : Server → Query ServerInfo
unfolding with_version
get_server_info server = do
  versioned ← with_version (rows_or_none (server server_info_version_sql)) new_server
  uptime ← first_number (rows_or_none (server server_info_uptime_sql))
  activity ← first_number (rows_or_none (server server_info_activity_sql))
  answer (record versioned { uptime = uptime; threads_connected = activity })

abbrev pub user_of : Row → UserInfo
user_of row = record {
  user = text_at row 0;
  host = codes "%";
  account_locked = false;
  password_expired = [];
}

unfoldable pub get_users : Server → List UserInfo
get_users server = map user_of (rows_or_none (server users_sql))

unfoldable pub get_global_variables : Server → List (Text × Text)
unfolding variables_of
get_global_variables server = variables_of (rows_or_none (server global_variables_sql)) []

unfoldable pub get_session_variables : Server → List (Text × Text)
unfolding get_global_variables
get_session_variables server = get_global_variables server

unfoldable pub get_row_ids : Server → Text → Text → ℕ → ℕ → List Text
unfolding get_primary_key_column row_ids_sql
get_row_ids server database table limit offset =
    let column = get_primary_key_column server database table in
    if is_empty column
    then []
    else names_at 0 (rows_or_none (server (row_ids_sql table column limit offset)))

unfoldable pub get_row_count : Server → Text → Text → Query ℕ
unfolding row_count_sql
get_row_count server database table = first_number (rows_or_none (server (row_count_sql table)))

unfoldable pub invalidate_table : Text → Text → CacheManager → Option CacheManager
unfolding Drop.invalidate_table
invalidate_table database table c = Drop.invalidate_table database table c

unfoldable pub invalidate_database : Text → CacheManager → Option CacheManager
unfolding Drop.invalidate_database
invalidate_database database c = Drop.invalidate_database database c

unfoldable pub invalidate_all : CacheManager → CacheManager
unfolding Drop.clear
invalidate_all c = Drop.clear c
