-- ===== src/Schema/Mysql/Rows.antt =====
-- The statements of objects, the server, its users and variables, and the rows of a table: the rest
-- of src/mysql/MySQLSchemaManager.cpp.
use sql_fuse.Base.{
  List, Option, Text, [], codes, if◌then◌else◌, is_empty, map, none, some, text_eq, to_unsigned, ℕ,
  ◌||◌, ◌∷◌,
}
use sql_fuse.Cache.Types.{CacheManager}
use sql_fuse.Cache.Drop
use sql_fuse.Fs.Types.{Query, answer}
use sql_fuse.Schema.Types.{UserInfo, ServerInfo, new_server}
use sql_fuse.Schema.Server.{
  ◌>>=◌, Row, Server, ask, cell, text_at, is_at, names_at, int_at, stoull, variables_of,
  first_number,
}
use sql_fuse.Schema.Mysql.Queries.{
  create_statement_table_sql, create_statement_view_sql, create_statement_procedure_sql,
  create_statement_function_sql, create_statement_trigger_sql, server_info_version_sql,
  server_info_status_sql, server_info_comment_sql, users_sql, global_variables_sql,
  session_variables_sql, row_ids_sql, row_count_sql,
}
use sql_fuse.Schema.Mysql.Details.{get_table_info}

-- The statement for a type of object, and the column of the answer with the object's own.
unfoldable pub create_sql : Text → Text → Text → Option Text
unfolding create_statement_table_sql create_statement_view_sql create_statement_procedure_sql
    create_statement_function_sql create_statement_trigger_sql
create_sql database object type =
    if text_eq type (codes "TABLE")
    then some (create_statement_table_sql database object)
    else if text_eq type (codes "VIEW")
    then some (create_statement_view_sql database object)
    else if text_eq type (codes "PROCEDURE")
    then some (create_statement_procedure_sql database object)
    else if text_eq type (codes "FUNCTION")
    then some (create_statement_function_sql database object)
    else if text_eq type (codes "TRIGGER")
    then some (create_statement_trigger_sql database object)
    else none

abbrev pub create_column : Text → ℕ
create_column type =
    if text_eq type (codes "PROCEDURE") || text_eq type (codes "FUNCTION") then 2 else 1

-- A row has as many cells as the answer has columns.
unfoldable pub get_create_statement : Server → Text → Text → Text → Query Text
unfolding create_sql
get_create_statement server database object type = elim (create_sql database object type) [
  | none ↦ answer []
  | some sql ↦ ask server sql >>= λ rows. elim rows [
    | [] ↦ answer []
    | row ∷ others ↦ answer (text_at row (create_column type))
  ]
]

-- Two bytes of a number.
unfoldable pub with_version : Option (List Row) → ServerInfo → Query ServerInfo
with_version (some (row ∷ rows)) info = do
  port ← int_at row 2
  answer (record info {
    version = text_at row 0;
    hostname = text_at row 1;
    port = to_unsigned 16 port;
  })
with_version _ info = answer info

unfoldable pub set_status : Text → Text → ServerInfo → Query ServerInfo
set_status name value info =
    if text_eq name (codes "Uptime")
    then (do n ← stoull value; answer (record info { uptime = n }))
    else if text_eq name (codes "Threads_connected")
    then (do n ← stoull value; answer (record info { threads_connected = n }))
    else if text_eq name (codes "Threads_running")
    then (do n ← stoull value; answer (record info { threads_running = n }))
    else if text_eq name (codes "Questions")
    then (do n ← stoull value; answer (record info { questions = n }))
    else if text_eq name (codes "Slow_queries")
    then (do n ← stoull value; answer (record info { slow_queries = n }))
    else answer info

unfoldable pub with_status_row : Option Text → Option Text → ServerInfo → Query ServerInfo
unfolding set_status
with_status_row (some name) (some value) info = set_status name value info
with_status_row _ _ info = answer info

unfoldable pub with_status : List Row → ServerInfo → Query ServerInfo
unfolding with_status_row
with_status [] info = answer info
with_status (row ∷ rows) info = do
  info' ← with_status_row (cell row 0) (cell row 1) info
  with_status rows info'

unfoldable pub with_comment : Option (List Row) → ServerInfo → ServerInfo
with_comment (some (row ∷ rows)) info = elim (cell row 0) [
  | none ↦ info
  | some comment ↦ record info { version_comment = comment }
]
with_comment _ info = info

-- A statement that fails is passed over.
unfoldable pub get_server_info : Server → Query ServerInfo
unfolding with_version with_status with_comment
get_server_info server = do
  versioned ← with_version (server server_info_version_sql) new_server
  counted ← elim (server server_info_status_sql) [
    | none ↦ answer versioned
    | some rows ↦ with_status rows versioned
  ]
  answer (with_comment (server server_info_comment_sql) counted)

abbrev pub user_of : Row → UserInfo
user_of row = record {
  user = text_at row 0;
  host = text_at row 1;
  account_locked = is_at (codes "Y") row 2;
  password_expired = text_at row 3;
}

unfoldable pub get_users : Server → List UserInfo
get_users server = elim (server users_sql) [ none ↦ [] | some rows ↦ map user_of rows ]

unfoldable pub get_global_variables : Server → Query (List (Text × Text))
unfolding variables_of
get_global_variables server = do
  rows ← ask server global_variables_sql
  answer (variables_of rows [])

unfoldable pub get_session_variables : Server → Query (List (Text × Text))
unfolding variables_of
get_session_variables server = do
  rows ← ask server session_variables_sql
  answer (variables_of rows [])

unfoldable pub get_row_ids : Server → Text → Text → ℕ → ℕ → Query (List Text)
unfolding get_table_info row_ids_sql
get_row_ids server database table limit offset =
    get_table_info server database table >>= λ table_info. elim table_info [
      | none ↦ answer []
      | some info ↦ if is_empty info.primary_key_column then answer [] else (do
        rows ← ask server (row_ids_sql database table info.primary_key_column limit offset)
        answer (names_at 0 rows))
    ]

unfoldable pub get_row_count : Server → Text → Text → Query ℕ
unfolding row_count_sql
get_row_count server database table = do
  rows ← ask server (row_count_sql database table)
  first_number rows

unfoldable pub invalidate_table : Text → Text → CacheManager → Option CacheManager
unfolding Drop.invalidate_table
invalidate_table database table c = Drop.invalidate_table database table c

unfoldable pub invalidate_database : Text → CacheManager → Option CacheManager
unfolding Drop.invalidate_database
invalidate_database database c = Drop.invalidate_database database c

unfoldable pub invalidate_all : CacheManager → CacheManager
unfolding Drop.clear
invalidate_all c = Drop.clear c
