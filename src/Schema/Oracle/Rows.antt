-- ===== src/Schema/Oracle/Rows.antt =====
-- The rest of src/oracle/OracleSchemaManager.cpp: the statements of objects, the server, its users and
-- variables, and the rows of a table.
use sql_fuse.Base.{
  List, Option, Text, [], codes, false, if◌then◌else◌, is_empty, map, none, some, text_eq, ℕ, ◌++◌,
  ◌||◌, ◌∷◌,
}
use sql_fuse.Cache.Types.{CacheManager}
use sql_fuse.Cache.Drop
use sql_fuse.Fs.Types.{Query, answer}
use sql_fuse.Schema.Types.{UserInfo, ServerInfo, new_server}
use sql_fuse.Schema.Server.{◌>>=◌, Row, Server, text_at, rows_or_none, variables_of, first_number}
use sql_fuse.Schema.Oracle.Queries.{
  escape_identifier, create_statement_sql, create_statement_view_text_sql, server_info_version_sql,
  server_info_instance_sql, users_sql, global_variables_sql, session_variables_sql, row_ids_sql,
  row_count_sql,
}
use sql_fuse.Schema.Oracle.Lists.{execute, names}
use sql_fuse.Schema.Oracle.Details.{first_text, get_table_info}

-- The type that the statement names: the type of the object, or a table's.
unfoldable pub object_type : Text → Text
object_type type =
    if text_eq type (codes "PROCEDURE") || text_eq type (codes "FUNCTION")
    then type
    else if text_eq type (codes "VIEW")
    then codes "VIEW"
    else if text_eq type (codes "TRIGGER")
    then codes "TRIGGER"
    else codes "TABLE"

-- Where the first statement fails for a view, the text of the view.
unfoldable pub view_statement : Option Server → Text → Text → Text
unfolding create_statement_view_text_sql escape_identifier
view_statement conn database object =
    elim (rows_or_none (execute conn (create_statement_view_text_sql database object))) [
      | [] ↦ []
      | row ∷ rows ↦
          codes "CREATE OR REPLACE VIEW "
          ++ (escape_identifier database
              ++ (codes "." ++ (escape_identifier object ++ (codes " AS\n" ++ text_at row 0))))
    ]

unfoldable pub get_create_statement : Option Server → Text → Text → Text → Text
unfolding create_statement_sql object_type view_statement
get_create_statement conn database object type =
    elim (execute conn (create_statement_sql database (object_type type) object)) [
      | none ↦ if text_eq type (codes "VIEW") then view_statement conn database object else []
      | some rows ↦ first_text rows
    ]

abbrev pub second_text : List Row → Text
second_text [] = []
second_text (row ∷ rows) = text_at row 1

unfoldable pub get_server_info : Option Server → ServerInfo
get_server_info conn = record new_server {
  version_comment = codes "Oracle Database";
  version = first_text (rows_or_none (execute conn server_info_version_sql));
  hostname = second_text (rows_or_none (execute conn server_info_instance_sql));
}

abbrev pub user_of : Row → UserInfo
user_of row = record {
  user = text_at row 0;
  host = codes "localhost";
  account_locked = false;
  password_expired = [];
}

unfoldable pub get_users : Option Server → List UserInfo
get_users conn = map user_of (rows_or_none (execute conn users_sql))

unfoldable pub get_global_variables : Option Server → List (Text × Text)
unfolding variables_of
get_global_variables conn = variables_of (rows_or_none (execute conn global_variables_sql)) []

unfoldable pub get_session_variables : Option Server → List (Text × Text)
unfolding variables_of
get_session_variables conn = variables_of (rows_or_none (execute conn session_variables_sql)) []

unfoldable pub get_row_ids : Option Server → Text → Text → ℕ → ℕ → Query (List Text)
unfolding get_table_info row_ids_sql
get_row_ids conn database table limit offset = get_table_info conn database table >>= λ table_info.
    elim table_info [
      | none ↦ answer []
      | some info ↦
          if is_empty info.primary_key_column
          then answer []
          else answer (names conn (row_ids_sql database table info.primary_key_column limit offset))
    ]

unfoldable pub get_row_count : Option Server → Text → Text → Query ℕ
unfolding row_count_sql
get_row_count conn database table =
    first_number (rows_or_none (execute conn (row_count_sql database table)))

unfoldable pub invalidate_table : Text → Text → CacheManager → Option CacheManager
unfolding Drop.invalidate
invalidate_table database table c =
    Drop.invalidate (codes "table:" ++ (database ++ (codes "." ++ (table ++ codes "*")))) c

unfoldable pub invalidate_database : Text → CacheManager → Option CacheManager
unfolding Drop.invalidate
invalidate_database database c = Drop.invalidate (codes "*:" ++ (database ++ codes ".*")) c

unfoldable pub invalidate_all : CacheManager → CacheManager
unfolding Drop.clear
invalidate_all c = Drop.clear c
