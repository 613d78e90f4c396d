-- ===== src/Schema/Postgresql/Statements.antt =====
-- The statements of src/postgresql/PostgreSQLSchemaManager.cpp with what each is made for.
use sql_fuse.Base.{Text, ℕ}
use sql_fuse.Schema.Postgresql.Queries.{
  databases_sql, schemas_sql, tables_sql, columns_sql, indexes_sql, primary_key_column_sql,
  table_info_sql, views_sql, view_info_sql, procedures_sql, functions_sql, routine_info_sql,
  triggers_sql, trigger_info_sql, create_statement_table_sql, create_statement_view_sql,
  create_statement_function_sql, server_info_version_sql, server_info_uptime_sql,
  server_info_activity_sql, users_sql, global_variables_sql, row_ids_sql, row_count_sql,
}

-- The statements, by the functions that send them.
pub data Statement : Type 0 where
  for_databases : Statement
  for_schemas : Statement
  for_tables : Statement
  for_columns : Text → Statement
  for_indexes : Text → Statement
  for_primary_key_column : Text → Statement
  for_table_info : Text → Statement
  for_views : Statement
  for_view_info : Text → Statement
  for_procedures : Statement
  for_functions : Statement
  for_routine_info : Text → Text → Statement
  for_triggers : Statement
  for_trigger_info : Text → Statement
  for_create_statement_table : Text → Statement
  for_create_statement_view : Text → Statement
  for_create_statement_function : Text → Statement
  for_server_info_version : Statement
  for_server_info_uptime : Statement
  for_server_info_activity : Statement
  for_users : Statement
  for_global_variables : Statement
  for_row_ids : Text → Text → ℕ → ℕ → Statement
  for_row_count : Text → Statement

abbrev pub sql_of : Statement → Text
sql_of for_databases = databases_sql
sql_of for_schemas = schemas_sql
sql_of for_tables = tables_sql
sql_of (for_columns table) = columns_sql table
sql_of (for_indexes table) = indexes_sql table
sql_of (for_primary_key_column table) = primary_key_column_sql table
sql_of (for_table_info table) = table_info_sql table
sql_of for_views = views_sql
sql_of (for_view_info view) = view_info_sql view
sql_of for_procedures = procedures_sql
sql_of for_functions = functions_sql
sql_of (for_routine_info routine kind) = routine_info_sql routine kind
sql_of for_triggers = triggers_sql
sql_of (for_trigger_info trigger) = trigger_info_sql trigger
sql_of (for_create_statement_table object) = create_statement_table_sql object
sql_of (for_create_statement_view object) = create_statement_view_sql object
sql_of (for_create_statement_function object) = create_statement_function_sql object
sql_of for_server_info_version = server_info_version_sql
sql_of for_server_info_uptime = server_info_uptime_sql
sql_of for_server_info_activity = server_info_activity_sql
sql_of for_users = users_sql
sql_of for_global_variables = global_variables_sql
sql_of (for_row_ids table column limit offset) = row_ids_sql table column limit offset
sql_of (for_row_count table) = row_count_sql table
