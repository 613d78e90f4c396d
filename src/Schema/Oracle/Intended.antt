-- ===== src/Schema/Oracle/Intended.antt =====
-- What the statements of src/oracle/OracleSchemaManager.cpp are meant to be.
use sql_fuse.Base.{List, [], codes, some, to_string, ◌∷◌}
use sql_fuse.Sql.Pieces.{Piece, word, identifier, value}
use sql_fuse.Schema.Oracle.Statements.{
  Statement, for_databases, for_database_exists, for_tables, for_table_info, for_table_info_key,
  for_columns, for_indexes, for_table_exists, for_views, for_view_info, for_procedures,
  for_functions, for_routine_info, for_triggers, for_trigger_info, for_create_statement_table,
  for_create_statement_view, for_create_statement_trigger, for_create_statement_procedure,
  for_create_statement_function, for_create_statement_view_text, for_server_info_version,
  for_server_info_instance, for_users, for_global_variables, for_session_variables, for_row_ids,
  for_row_count,
}

-- The words, the names and the values that each statement is meant to be.
abbrev pub pieces_of : Statement → List Piece
pieces_of for_databases =
    word (codes "\n        SELECT DISTINCT owner FROM all_tables\n        WHERE owner NOT ")
    ∷ word (codes "IN (")
    ∷ value (some (codes "SYS"))
    ∷ word (codes ", ")
    ∷ value (some (codes "SYSTEM"))
    ∷ word (codes ", ")
    ∷ value (some (codes "OUTLN"))
    ∷ word (codes ", ")
    ∷ value (some (codes "DIP"))
    ∷ word (codes ", ")
    ∷ value (some (codes "ORACLE_OCM"))
    ∷ word (codes ",\n                            ")
    ∷ value (some (codes "DBSNMP"))
    ∷ word (codes ", ")
    ∷ value (some (codes "APPQOSSYS"))
    ∷ word (codes ", ")
    ∷ value (some (codes "WMSYS"))
    ∷ word (codes ", ")
    ∷ value (some (codes "EXFSYS"))
    ∷ word (codes ", ")
    ∷ value (some (codes "CTXSYS"))
    ∷ word (codes ",\n                            ")
    ∷ value (some (codes "XDB"))
    ∷ word (codes ", ")
    ∷ value (some (codes "ANONYMOUS"))
    ∷ word (codes ", ")
    ∷ value (some (codes "MDSYS"))
    ∷ word (codes ", ")
    ∷ value (some (codes "OLAPSYS"))
    ∷ word (codes ", ")
    ∷ value (some (codes "ORDDATA"))
    ∷ word (codes ",\n                            ")
    ∷ value (some (codes "ORDPLUGINS"))
    ∷ word (codes ", ")
    ∷ value (some (codes "ORDSYS"))
    ∷ word (codes ", ")
    ∷ value (some (codes "SI_INFORMTN_SCHEMA"))
    ∷ word (codes ",\n                            ")
    ∷ value (some (codes "LBACSYS"))
    ∷ word (codes ", ")
    ∷ value (some (codes "DVSYS"))
    ∷ word (codes ", ")
    ∷ value (some (codes "DVF"))
    ∷ word (codes ", ")
    ∷ value (some (codes "AUDSYS"))
    ∷ word (codes ", ")
    ∷ value (some (codes "GSMADMIN_INTERNAL"))
    ∷ word (codes ",\n                            ")
    ∷ value (some (codes "OJVMSYS"))
    ∷ word (codes ", ")
    ∷ value (some (codes "WKPROXY"))
    ∷ word (codes ", ")
    ∷ value (some (codes "WK_TEST"))
    ∷ word (codes ")\n        ORDER BY owner\n    ")
    ∷ []
pieces_of (for_database_exists database) =
    word (codes "SELECT 1 FROM all_users WHERE username = ") ∷ value (some database) ∷ []
pieces_of (for_tables database) =
    word (codes "SELECT table_name FROM all_tables WHERE owner = ")
    ∷ value (some database)
    ∷ word (codes " ORDER BY table_name")
    ∷ []
pieces_of (for_table_info database table) =
    word (codes "SELECT table_name, num_rows, blocks, avg_row_len FROM all_tables WHERE ")
    ∷ word (codes "owner = ")
    ∷ value (some database)
    ∷ word (codes " AND table_name = ")
    ∷ value (some table)
    ∷ []
pieces_of (for_table_info_key database table) =
    word (codes "\n        SELECT cols.column_name\n        FROM all_constraints cons\n     ")
    ∷ word (codes "   JOIN all_cons_columns cols ON cons.constraint_name = ")
    ∷ word (codes "cols.constraint_name\n            AND cons.owner = cols.owner\n        ")
    ∷ word (codes "WHERE cons.constraint_type = ")
    ∷ value (some (codes "P"))
    ∷ word (codes "\n            AND cons.owner = ")
    ∷ value (some database)
    ∷ word (codes "\n            AND cons.table_name = ")
    ∷ value (some table)
    ∷ word (codes "\n        ORDER BY cols.position\n    ")
    ∷ []
pieces_of (for_columns database table) =
    word (codes "\n        SELECT column_name, data_type, data_length, data_precision, ")
    ∷ word (codes "data_scale,\n               nullable, column_id, data_default\n        ")
    ∷ word (codes "FROM all_tab_columns\n        WHERE owner = ")
    ∷ value (some database)
    ∷ word (codes "\n            AND table_name = ")
    ∷ value (some table)
    ∷ word (codes "\n        ORDER BY column_id\n    ")
    ∷ []
pieces_of (for_indexes database table) =
    word (codes "\n        SELECT i.index_name, i.uniqueness, ic.column_name, ")
    ∷ word (codes "ic.column_position\n        FROM all_indexes i\n        JOIN ")
    ∷ word (codes "all_ind_columns ic ON i.index_name = ic.index_name AND i.owner = ")
    ∷ word (codes "ic.index_owner\n        WHERE i.owner = ")
    ∷ value (some database)
    ∷ word (codes "\n            AND i.table_name = ")
    ∷ value (some table)
    ∷ word (codes "\n        ORDER BY i.index_name, ic.column_position\n    ")
    ∷ []
pieces_of (for_table_exists database table) =
    word (codes "SELECT 1 FROM all_tables WHERE owner = ")
    ∷ value (some database)
    ∷ word (codes " AND table_name = ")
    ∷ value (some table)
    ∷ []
pieces_of (for_views database) =
    word (codes "SELECT view_name FROM all_views WHERE owner = ")
    ∷ value (some database)
    ∷ word (codes " ORDER BY view_name")
    ∷ []
pieces_of (for_view_info database view) =
    word (codes "SELECT view_name, text FROM all_views WHERE owner = ")
    ∷ value (some database)
    ∷ word (codes " AND view_name = ")
    ∷ value (some view)
    ∷ []
pieces_of (for_procedures database) =
    word (codes "SELECT object_name FROM all_procedures WHERE owner = ")
    ∷ value (some database)
    ∷ word (codes " AND object_type = ")
    ∷ value (some (codes "PROCEDURE"))
    ∷ word (codes " ORDER BY object_name")
    ∷ []
pieces_of (for_functions database) =
    word (codes "SELECT object_name FROM all_procedures WHERE owner = ")
    ∷ value (some database)
    ∷ word (codes " AND object_type = ")
    ∷ value (some (codes "FUNCTION"))
    ∷ word (codes " ORDER BY object_name")
    ∷ []
pieces_of (for_routine_info database routine kind) =
    word (codes "SELECT object_name, object_type, created, last_ddl_time FROM ")
    ∷ word (codes "all_objects WHERE owner = ")
    ∷ value (some database)
    ∷ word (codes " AND object_name = ")
    ∷ value (some routine)
    ∷ word (codes " AND object_type = ")
    ∷ value (some kind)
    ∷ []
pieces_of (for_triggers database) =
    word (codes "SELECT trigger_name FROM all_triggers WHERE owner = ")
    ∷ value (some database)
    ∷ word (codes " ORDER BY trigger_name")
    ∷ []
pieces_of (for_trigger_info database trigger) =
    word (codes "SELECT trigger_name, trigger_type, triggering_event, table_name, ")
    ∷ word (codes "status, trigger_body FROM all_triggers WHERE owner = ")
    ∷ value (some database)
    ∷ word (codes " AND trigger_name = ")
    ∷ value (some trigger)
    ∷ []
pieces_of (for_create_statement_table database object) =
    word (codes "SELECT DBMS_METADATA.GET_DDL(")
    ∷ value (some (codes "TABLE"))
    ∷ word (codes ", ")
    ∷ value (some object)
    ∷ word (codes ", ")
    ∷ value (some database)
    ∷ word (codes ") FROM dual")
    ∷ []
pieces_of (for_create_statement_view database object) =
    word (codes "SELECT DBMS_METADATA.GET_DDL(")
    ∷ value (some (codes "VIEW"))
    ∷ word (codes ", ")
    ∷ value (some object)
    ∷ word (codes ", ")
    ∷ value (some database)
    ∷ word (codes ") FROM dual")
    ∷ []
pieces_of (for_create_statement_trigger database object) =
    word (codes "SELECT DBMS_METADATA.GET_DDL(")
    ∷ value (some (codes "TRIGGER"))
    ∷ word (codes ", ")
    ∷ value (some object)
    ∷ word (codes ", ")
    ∷ value (some database)
    ∷ word (codes ") FROM dual")
    ∷ []
pieces_of (for_create_statement_procedure database object) =
    word (codes "SELECT DBMS_METADATA.GET_DDL(")
    ∷ value (some (codes "PROCEDURE"))
    ∷ word (codes ", ")
    ∷ value (some object)
    ∷ word (codes ", ")
    ∷ value (some database)
    ∷ word (codes ") FROM dual")
    ∷ []
pieces_of (for_create_statement_function database object) =
    word (codes "SELECT DBMS_METADATA.GET_DDL(")
    ∷ value (some (codes "FUNCTION"))
    ∷ word (codes ", ")
    ∷ value (some object)
    ∷ word (codes ", ")
    ∷ value (some database)
    ∷ word (codes ") FROM dual")
    ∷ []
pieces_of (for_create_statement_view_text database object) =
    word (codes "SELECT text FROM all_views WHERE owner = ")
    ∷ value (some database)
    ∷ word (codes " AND view_name = ")
    ∷ value (some object)
    ∷ []
pieces_of for_server_info_version =
    word (codes "SELECT banner FROM v$version WHERE ROWNUM = 1") ∷ []
pieces_of for_server_info_instance =
    word (codes "SELECT instance_name, host_name FROM v$instance") ∷ []
pieces_of for_users =
    word (codes "SELECT username, account_status, created, lock_date, expiry_date FROM ")
    ∷ word (codes "all_users ORDER BY username")
    ∷ []
pieces_of for_global_variables =
    word (codes "SELECT name, value FROM v$parameter ORDER BY name") ∷ []
pieces_of for_session_variables =
    word (codes "SELECT name, value FROM v$parameter ORDER BY name") ∷ []
pieces_of (for_row_ids database table column limit offset) =
    word (codes "SELECT ")
    ∷ identifier column
    ∷ word (codes " FROM ")
    ∷ identifier database
    ∷ word (codes ".")
    ∷ identifier table
    ∷ word (codes " ORDER BY ")
    ∷ identifier column
    ∷ word (codes " OFFSET ")
    ∷ word (to_string offset)
    ∷ word (codes " ROWS FETCH NEXT ")
    ∷ word (to_string limit)
    ∷ word (codes " ROWS ONLY")
    ∷ []
pieces_of (for_row_count database table) =
    word (codes "SELECT COUNT(*) FROM ")
    ∷ identifier database
    ∷ word (codes ".")
    ∷ identifier table
    ∷ []
