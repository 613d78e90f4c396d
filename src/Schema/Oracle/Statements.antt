-- ===== src/Schema/Oracle/Statements.antt =====
-- The statements of src/oracle/OracleSchemaManager.cpp with what each is made for.
use sql_fuse.Base.{Text, codes, ℕ}
use sql_fuse.Schema.Oracle.Queries.{
  databases_sql, database_exists_sql, tables_sql, table_info_sql, table_info_key_sql, columns_sql,
  indexes_sql, table_exists_sql, views_sql, view_info_sql, procedures_sql, functions_sql,
  routine_info_sql, triggers_sql, trigger_info_sql, create_statement_sql,
  create_statement_view_text_sql, server_info_version_sql, server_info_instance_sql, users_sql,
  global_variables_sql, session_variables_sql, row_ids_sql, row_count_sql,
}

-- The statements, by the functions that send them.
pub data Statement : Type 0 where
  for_databases : Statement
  for_database_exists : Text → Statement
  for_tables : Text → Statement
  for_table_info : Text → Text → Statement
  for_table_info_key : Text → Text → Statement
  for_columns : Text → Text → Statement
  for_indexes : Text → Text → Statement
  for_table_exists : Text → Text → Statement
  for_views : Text → Statement
  for_view_info : Text → Text → Statement
  for_procedures : Text → Statement
  for_functions : Text → Statement
  for_routine_info : Text → Text → Text → Statement
  for_triggers : Text → Statement
  for_trigger_info : Text → Text → Statement
  for_create_statement_table : Text → Text → Statement
  for_create_statement_view : Text → Text → Statement
  for_create_statement_trigger : Text → Text → Statement
  for_create_statement_procedure : Text → Text → Statement
  for_create_statement_function : Text → Text → Statement
  for_create_statement_view_text : Text → Text → Statement
  for_server_info_version : Statement
  for_server_info_instance : Statement
  for_users : Statement
  for_global_variables : Statement
  for_session_variables : Statement
  for_row_ids : Text → Text → Text → ℕ → ℕ → Statement
  for_row_count : Text → Text → Statement

abbrev pub sql_of : Statement → Text
sql_of for_databases = databases_sql
sql_of (for_database_exists database) = database_exists_sql database
sql_of (for_tables database) = tables_sql database
sql_of (for_table_info database table) = table_info_sql database table
sql_of (for_table_info_key database table) = table_info_key_sql database table
sql_of (for_columns database table) = columns_sql database table
sql_of (for_indexes database table) = indexes_sql database table
sql_of (for_table_exists database table) = table_exists_sql database table
sql_of (for_views database) = views_sql database
sql_of (for_view_info database view) = view_info_sql database view
sql_of (for_procedures database) = procedures_sql database
sql_of (for_functions database) = functions_sql database
sql_of (for_routine_info database routine kind) = routine_info_sql database routine kind
sql_of (for_triggers database) = triggers_sql database
sql_of (for_trigger_info database trigger) = trigger_info_sql database trigger
sql_of (for_create_statement_table database object) =
    create_statement_sql database (codes "TABLE") object
sql_of (for_create_statement_view database object) =
    create_statement_sql database (codes "VIEW") object
sql_of (for_create_statement_trigger database object) =
    create_statement_sql database (codes "TRIGGER") object
sql_of (for_create_statement_procedure database object) =
    create_statement_sql database (codes "PROCEDURE") object
sql_of (for_create_statement_function database object) =
    create_statement_sql database (codes "FUNCTION") object
sql_of (for_create_statement_view_text database object) =
    create_statement_view_text_sql database object
sql_of for_server_info_version = server_info_version_sql
sql_of for_server_info_instance = server_info_instance_sql
sql_of for_users = users_sql
sql_of for_global_variables = global_variables_sql
sql_of for_session_variables = session_variables_sql
sql_of (for_row_ids database table column limit offset) =
    row_ids_sql database table column limit offset
sql_of (for_row_count database table) = row_count_sql database table
