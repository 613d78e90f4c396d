-- ===== src/Schema/Sqlite/Statements.antt =====
-- The statements of src/sqlite/SQLiteSchemaManager.cpp with what each is made for.
use sql_fuse.Base.{Text, codes, ℕ}
use sql_fuse.Schema.Sqlite.Queries.{
  databases_sql, tables_sql, columns_sql, indexes_sql, indexes_columns_sql, primary_key_column_sql,
  table_info_sql, views_sql, view_info_sql, triggers_sql, trigger_info_sql, create_statement_sql,
  global_variables_sql, row_ids_sql, row_count_sql,
}

-- The statements, by the functions that send them.
pub data Statement : Type 0 where
  for_databases : Statement
  for_tables : Text → Statement
  for_columns : Text → Text → Statement
  for_indexes : Text → Text → Statement
  for_indexes_columns : Text → Text → Statement
  for_primary_key_column : Text → Statement
  for_table_info : Text → Text → Statement
  for_views : Text → Statement
  for_view_info : Text → Text → Statement
  for_triggers : Text → Statement
  for_trigger_info : Text → Text → Statement
  for_create_statement_table : Text → Text → Statement
  for_create_statement_view : Text → Text → Statement
  for_create_statement_trigger : Text → Text → Statement
  for_create_statement_index : Text → Text → Statement
  for_global_variables : Statement
  for_row_ids : Text → Text → Text → ℕ → ℕ → Statement
  for_row_count : Text → Text → Statement

abbrev pub sql_of : Statement → Text
sql_of for_databases = databases_sql
sql_of (for_tables database) = tables_sql database
sql_of (for_columns database table) = columns_sql database table
sql_of (for_indexes database table) = indexes_sql database table
sql_of (for_indexes_columns database index) = indexes_columns_sql database index
sql_of (for_primary_key_column table) = primary_key_column_sql table
sql_of (for_table_info database table) = table_info_sql database table
sql_of (for_views database) = views_sql database
sql_of (for_view_info database view) = view_info_sql database view
sql_of (for_triggers database) = triggers_sql database
sql_of (for_trigger_info database trigger) = trigger_info_sql database trigger
sql_of (for_create_statement_table database object) =
    create_statement_sql database (codes "table") object
sql_of (for_create_statement_view database object) =
    create_statement_sql database (codes "view") object
sql_of (for_create_statement_trigger database object) =
    create_statement_sql database (codes "trigger") object
sql_of (for_create_statement_index database object) =
    create_statement_sql database (codes "index") object
sql_of for_global_variables = global_variables_sql
sql_of (for_row_ids database table column limit offset) =
    row_ids_sql database table column limit offset
sql_of (for_row_count database table) = row_count_sql database table
