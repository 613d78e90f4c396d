-- ===== src/Schema/Mysql/Intended.antt =====
-- What the statements of src/mysql/MySQLSchemaManager.cpp are meant to be.
use sql_fuse.Base.{List, [], codes, some, to_string, ◌∷◌}
use sql_fuse.Sql.Pieces.{Piece, word, identifier, value}
use sql_fuse.Schema.Mysql.Statements.{
  Statement, for_databases, for_tables, for_columns, for_indexes, for_table_info, for_views,
  for_view_info, for_procedures, for_functions, for_routine_info, for_triggers, for_trigger_info,
  for_create_statement_table, for_create_statement_view, for_create_statement_procedure,
  for_create_statement_function, for_create_statement_trigger, for_server_info_version,
  for_server_info_status, for_server_info_comment, for_users, for_global_variables,
  for_session_variables, for_row_ids, for_row_count,
}

-- The words, the names and the values that each statement is meant to be.
abbrev pub pieces_of : Statement → List Piece
pieces_of for_databases = word (codes "SHOW DATABASES") ∷ []
pieces_of (for_tables database) =
    word (codes "SHOW FULL TABLES FROM ")
    ∷ identifier database
    ∷ word (codes " WHERE Table_type = ")
    ∷ value (some (codes "BASE TABLE"))
    ∷ []
pieces_of (for_columns database table) =
    word (codes "SELECT COLUMN_NAME, DATA_TYPE, COLUMN_TYPE, IS_NULLABLE, ")
    ∷ word (codes "COLUMN_DEFAULT, EXTRA, COLUMN_KEY, COLLATION_NAME, COLUMN_COMMENT, ")
    ∷ word (codes "ORDINAL_POSITION FROM INFORMATION_SCHEMA.COLUMNS WHERE TABLE_SCHEMA = ")
    ∷ value (some database)
    ∷ word (codes " AND TABLE_NAME = ")
    ∷ value (some table)
    ∷ word (codes " ORDER BY ORDINAL_POSITION")
    ∷ []
pieces_of (for_indexes database table) =
    word (codes "SHOW INDEX FROM ") ∷ identifier database ∷ word (codes ".") ∷ identifier table ∷ []
pieces_of (for_table_info database table) =
    word (codes "SELECT TABLE_NAME, ENGINE, TABLE_COLLATION, TABLE_COMMENT, CREATE_TIME, ")
    ∷ word (codes "UPDATE_TIME, TABLE_ROWS, DATA_LENGTH, INDEX_LENGTH, AUTO_INCREMENT FROM ")
    ∷ word (codes "INFORMATION_SCHEMA.TABLES WHERE TABLE_SCHEMA = ")
    ∷ value (some database)
    ∷ word (codes " AND TABLE_NAME = ")
    ∷ value (some table)
    ∷ []
pieces_of (for_views database) =
    word (codes "SHOW FULL TABLES FROM ")
    ∷ identifier database
    ∷ word (codes " WHERE Table_type = ")
    ∷ value (some (codes "VIEW"))
    ∷ []
pieces_of (for_view_info database view) =
    word (codes "SELECT TABLE_NAME, DEFINER, SECURITY_TYPE, IS_UPDATABLE, CHECK_OPTION ")
    ∷ word (codes "FROM INFORMATION_SCHEMA.VIEWS WHERE TABLE_SCHEMA = ")
    ∷ value (some database)
    ∷ word (codes " AND TABLE_NAME = ")
    ∷ value (some view)
    ∷ []
pieces_of (for_procedures database) =
    word (codes "SELECT ROUTINE_NAME FROM INFORMATION_SCHEMA.ROUTINES WHERE ")
    ∷ word (codes "ROUTINE_SCHEMA = ")
    ∷ value (some database)
    ∷ word (codes " AND ROUTINE_TYPE = ")
    ∷ value (some (codes "PROCEDURE"))
    ∷ []
pieces_of (for_functions database) =
    word (codes "SELECT ROUTINE_NAME FROM INFORMATION_SCHEMA.ROUTINES WHERE ")
    ∷ word (codes "ROUTINE_SCHEMA = ")
    ∷ value (some database)
    ∷ word (codes " AND ROUTINE_TYPE = ")
    ∷ value (some (codes "FUNCTION"))
    ∷ []
pieces_of (for_routine_info database routine kind) =
    word (codes "SELECT ROUTINE_NAME, ROUTINE_TYPE, DEFINER, DATA_TYPE, SQL_DATA_ACCESS, ")
    ∷ word (codes "SECURITY_TYPE, IS_DETERMINISTIC, ROUTINE_COMMENT, CREATED, LAST_ALTERED ")
    ∷ word (codes "FROM INFORMATION_SCHEMA.ROUTINES WHERE ROUTINE_SCHEMA = ")
    ∷ value (some database)
    ∷ word (codes " AND ROUTINE_NAME = ")
    ∷ value (some routine)
    ∷ word (codes " AND ROUTINE_TYPE = ")
    ∷ value (some kind)
    ∷ []
pieces_of (for_triggers database) =
    word (codes "SELECT TRIGGER_NAME FROM INFORMATION_SCHEMA.TRIGGERS WHERE ")
    ∷ word (codes "TRIGGER_SCHEMA = ")
    ∷ value (some database)
    ∷ []
pieces_of (for_trigger_info database trigger) =
    word (codes "SELECT TRIGGER_NAME, EVENT_OBJECT_TABLE, EVENT_MANIPULATION, ")
    ∷ word (codes "ACTION_TIMING, ACTION_STATEMENT, DEFINER, CREATED FROM ")
    ∷ word (codes "INFORMATION_SCHEMA.TRIGGERS WHERE TRIGGER_SCHEMA = ")
    ∷ value (some database)
    ∷ word (codes " AND TRIGGER_NAME = ")
    ∷ value (some trigger)
    ∷ []
pieces_of (for_create_statement_table database object) =
    word (codes "SHOW CREATE TABLE ")
    ∷ identifier database
    ∷ word (codes ".")
    ∷ identifier object
    ∷ []
pieces_of (for_create_statement_view database object) =
    word (codes "SHOW CREATE VIEW ")
    ∷ identifier database
    ∷ word (codes ".")
    ∷ identifier object
    ∷ []
pieces_of (for_create_statement_procedure database object) =
    word (codes "SHOW CREATE PROCEDURE ")
    ∷ identifier database
    ∷ word (codes ".")
    ∷ identifier object
    ∷ []
pieces_of (for_create_statement_function database object) =
    word (codes "SHOW CREATE FUNCTION ")
    ∷ identifier database
    ∷ word (codes ".")
    ∷ identifier object
    ∷ []
pieces_of (for_create_statement_trigger database object) =
    word (codes "SHOW CREATE TRIGGER ")
    ∷ identifier database
    ∷ word (codes ".")
    ∷ identifier object
    ∷ []
pieces_of for_server_info_version = word (codes "SELECT VERSION(), @@hostname, @@port") ∷ []
pieces_of for_server_info_status =
    word (codes "SHOW GLOBAL STATUS WHERE Variable_name IN (")
    ∷ value (some (codes "Uptime"))
    ∷ word (codes ", ")
    ∷ value (some (codes "Threads_connected"))
    ∷ word (codes ", ")
    ∷ value (some (codes "Threads_running"))
    ∷ word (codes ", ")
    ∷ value (some (codes "Questions"))
    ∷ word (codes ", ")
    ∷ value (some (codes "Slow_queries"))
    ∷ word (codes ")")
    ∷ []
pieces_of for_server_info_comment = word (codes "SELECT @@version_comment") ∷ []
pieces_of for_users =
    word (codes "SELECT User, Host, account_locked, password_expired FROM mysql.user ")
    ∷ word (codes "ORDER BY User, Host")
    ∷ []
pieces_of for_global_variables = word (codes "SHOW GLOBAL VARIABLES") ∷ []
pieces_of for_session_variables = word (codes "SHOW SESSION VARIABLES") ∷ []
pieces_of (for_row_ids database table column limit offset) =
    word (codes "SELECT ")
    ∷ identifier column
    ∷ word (codes " FROM ")
    ∷ identifier database
    ∷ word (codes ".")
    ∷ identifier table
    ∷ word (codes " ORDER BY ")
    ∷ identifier column
    ∷ word (codes " LIMIT ")
    ∷ word (to_string limit)
    ∷ word (codes " OFFSET ")
    ∷ word (to_string offset)
    ∷ []
pieces_of (for_row_count database table) =
    word (codes "SELECT COUNT(*) FROM ")
    ∷ identifier database
    ∷ word (codes ".")
    ∷ identifier table
    ∷ []
