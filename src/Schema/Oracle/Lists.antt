-- ===== src/Schema/Oracle/Lists.antt =====
-- The lists of names of src/oracle/OracleSchemaManager.cpp, none of which is kept. Without a
-- connection, and where a statement fails, they are empty.
use sql_fuse.Base.{Bool, List, Option, Text, is_empty, none, not, some}
use sql_fuse.Schema.Server.{Row, Server, names_at, rows_or_none}
use sql_fuse.Schema.Oracle.Queries.{
  databases_sql, database_exists_sql, tables_sql, table_exists_sql, views_sql, procedures_sql,
  functions_sql, triggers_sql,
}

-- What a statement gives on a connection that may be missing.
abbrev pub execute : Option Server → Text → Option (List Row)
execute none sql = none
execute (some conn) sql = conn sql

abbrev pub names : Option Server → Text → List Text
names conn sql = names_at 0 (rows_or_none (execute conn sql))

abbrev pub gives_row : Option Server → Text → Bool
gives_row conn sql = not (is_empty (rows_or_none (execute conn sql)))

unfoldable pub get_databases : Option Server → List Text
get_databases conn = names conn databases_sql

unfoldable pub database_exists : Option Server → Text → Bool
unfolding database_exists_sql
database_exists conn database = gives_row conn (database_exists_sql database)

unfoldable pub get_tables : Option Server → Text → List Text
unfolding tables_sql
get_tables conn database = names conn (tables_sql database)

unfoldable pub table_exists : Option Server → Text → Text → Bool
unfolding table_exists_sql
table_exists conn database table = gives_row conn (table_exists_sql database table)

unfoldable pub get_views : Option Server → Text → List Text
unfolding views_sql
get_views conn database = names conn (views_sql database)

unfoldable pub get_procedures : Option Server → Text → List Text
unfolding procedures_sql
get_procedures conn database = names conn (procedures_sql database)

unfoldable pub get_functions : Option Server → Text → List Text
unfolding functions_sql
get_functions conn database = names conn (functions_sql database)

unfoldable pub get_triggers : Option Server → Text → List Text
unfolding triggers_sql
get_triggers conn database = names conn (triggers_sql database)
