-- ===== src/Schema/Oracle/Queries.antt =====
-- The statements of src/oracle/OracleSchemaManager.cpp.
use sql_fuse.Base.{Text, codes, to_string, ℕ, ◌++◌}
use sql_fuse.Sql.Oracle

unfoldable pub escape_identifier : Text → Text
unfolding Oracle.escape_identifier
escape_identifier id = Oracle.escape_identifier id

unfoldable pub escape_string : Text → Text
unfolding Oracle.escape_sql
escape_string str = Oracle.escape_sql str

abbrev pub databases_sql : Text
databases_sql =
    codes "\n        SELECT DISTINCT owner FROM all_tables\n        WHERE owner NOT "
    ++ (codes "IN ('SYS', 'SYSTEM', 'OUTLN', 'DIP', 'ORACLE_OCM',\n                     "
        ++ (codes "       'DBSNMP', 'APPQOSSYS', 'WMSYS', 'EXFSYS', 'CTXSYS',\n             "
            ++ (codes "               'XDB', 'ANONYMOUS', 'MDSYS', 'OLAPSYS', 'ORDDATA',\n      "
                ++ (codes
                      "                      'ORDPLUGINS', 'ORDSYS', 'SI_INFORMTN_SCHEMA',\n    "
                    ++ (codes "                        'LBACSYS', 'DVSYS', 'DVF', 'AUDSYS', "
                        ++ (codes
                              "'GSMADMIN_INTERNAL',\n                            'OJVMSYS', 'WKPROXY', "
                            ++ (codes "'WK_TEST')\n        ORDER BY owner\n    ")))))))

unfoldable pub database_exists_sql : Text → Text
database_exists_sql database =
    codes "SELECT 1 FROM all_users WHERE username = '" ++ (escape_string database ++ (codes "'"))

unfoldable pub tables_sql : Text → Text
tables_sql database =
    codes "SELECT table_name FROM all_tables WHERE owner = '"
    ++ (escape_string database ++ (codes "' ORDER BY table_name"))

unfoldable pub table_info_sql : Text → Text → Text
table_info_sql database table =
    codes "SELECT table_name, num_rows, blocks, avg_row_len "
    ++ (codes "FROM all_tables WHERE owner = '"
        ++ (escape_string database
            ++ (codes "' AND table_name = '" ++ (escape_string table ++ (codes "'")))))

unfoldable pub table_info_key_sql : Text → Text → Text
table_info_key_sql database table =
    codes "\n        SELECT cols.column_name\n        FROM all_constraints cons\n     "
    ++ (codes "   JOIN all_cons_columns cols ON cons.constraint_name = "
        ++ (codes "cols.constraint_name\n            AND cons.owner = cols.owner\n        "
            ++ (codes "WHERE cons.constraint_type = 'P'\n            AND cons.owner = '"
                ++ (escape_string database
                    ++ (codes "'\n            AND cons.table_name = '"
                        ++ (escape_string table
                            ++ (codes "'\n        ORDER BY cols.position\n    ")))))))

unfoldable pub columns_sql : Text → Text → Text
columns_sql database table =
    codes "\n        SELECT column_name, data_type, data_length, data_precision, "
    ++ (codes "data_scale,\n               nullable, column_id, data_default\n        "
        ++ (codes "FROM all_tab_columns\n        WHERE owner = '"
            ++ (escape_string database
                ++ (codes "'\n            AND table_name = '"
                    ++ (escape_string table ++ (codes "'\n        ORDER BY column_id\n    "))))))

unfoldable pub indexes_sql : Text → Text → Text
indexes_sql database table =
    codes "\n        SELECT i.index_name, i.uniqueness, ic.column_name, "
    ++ (codes "ic.column_position\n        FROM all_indexes i\n        JOIN "
        ++ (codes "all_ind_columns ic ON i.index_name = ic.index_name AND i.owner = "
            ++ (codes "ic.index_owner\n        WHERE i.owner = '"
                ++ (escape_string database
                    ++ (codes "'\n            AND i.table_name = '"
                        ++ (escape_string table
                            ++ (codes
                                "'\n        ORDER BY i.index_name, ic.column_position\n    ")))))))

unfoldable pub table_exists_sql : Text → Text → Text
table_exists_sql database table =
    codes "SELECT 1 FROM all_tables WHERE owner = '"
    ++ (escape_string database
        ++ (codes "' AND table_name = '" ++ (escape_string table ++ (codes "'"))))

unfoldable pub views_sql : Text → Text
views_sql database =
    codes "SELECT view_name FROM all_views WHERE owner = '"
    ++ (escape_string database ++ (codes "' ORDER BY view_name"))

unfoldable pub view_info_sql : Text → Text → Text
view_info_sql database view =
    codes "SELECT view_name, text FROM all_views WHERE owner = '"
    ++ (escape_string database
        ++ (codes "' AND view_name = '" ++ (escape_string view ++ (codes "'"))))

unfoldable pub procedures_sql : Text → Text
procedures_sql database =
    codes "SELECT object_name FROM all_procedures WHERE owner = '"
    ++ (escape_string database ++ (codes "' AND object_type = 'PROCEDURE' ORDER BY object_name"))

unfoldable pub functions_sql : Text → Text
functions_sql database =
    codes "SELECT object_name FROM all_procedures WHERE owner = '"
    ++ (escape_string database ++ (codes "' AND object_type = 'FUNCTION' ORDER BY object_name"))

unfoldable pub routine_info_sql : Text → Text → Text → Text
routine_info_sql database routine kind =
    codes "SELECT object_name, object_type, created, last_ddl_time "
    ++ (codes "FROM all_objects WHERE owner = '"
        ++ (escape_string database
            ++ (codes "' AND object_name = '"
                ++ (escape_string routine
                    ++ (codes "' AND object_type = '" ++ (escape_string kind ++ (codes "'")))))))

unfoldable pub triggers_sql : Text → Text
triggers_sql database =
    codes "SELECT trigger_name FROM all_triggers WHERE owner = '"
    ++ (escape_string database ++ (codes "' ORDER BY trigger_name"))

unfoldable pub trigger_info_sql : Text → Text → Text
trigger_info_sql database trigger =
    codes "SELECT trigger_name, trigger_type, triggering_event, table_name, "
    ++ (codes "status, trigger_body FROM all_triggers WHERE owner = '"
        ++ (escape_string database
            ++ (codes "' AND trigger_name = '" ++ (escape_string trigger ++ (codes "'")))))

unfoldable pub create_statement_sql : Text → Text → Text → Text
create_statement_sql database kind object =
    codes "SELECT DBMS_METADATA.GET_DDL('"
    ++ (kind
        ++ (codes "', '"
            ++ (escape_string object
                ++ (codes "', '" ++ (escape_string database ++ (codes "') FROM dual"))))))

unfoldable pub create_statement_view_text_sql : Text → Text → Text
create_statement_view_text_sql database object =
    codes "SELECT text FROM all_views WHERE owner = '"
    ++ (escape_string database
        ++ (codes "' AND view_name = '" ++ (escape_string object ++ (codes "'"))))

abbrev pub server_info_version_sql : Text
server_info_version_sql = codes "SELECT banner FROM v$version WHERE ROWNUM = 1"

abbrev pub server_info_instance_sql : Text
server_info_instance_sql = codes "SELECT instance_name, host_name FROM v$instance"

abbrev pub users_sql : Text
users_sql =
    codes "SELECT username, account_status, created, lock_date, expiry_date "
    ++ (codes "FROM all_users ORDER BY username")

abbrev pub global_variables_sql : Text
global_variables_sql = codes "SELECT name, value FROM v$parameter ORDER BY name"

abbrev pub session_variables_sql : Text
session_variables_sql = codes "SELECT name, value FROM v$parameter ORDER BY name"

unfoldable pub row_ids_sql : Text → Text → Text → ℕ → ℕ → Text
row_ids_sql database table column limit offset =
    codes "SELECT "
    ++ (escape_identifier column
        ++ (codes " FROM "
            ++ (escape_identifier database
                ++ (codes "."
                    ++ (escape_identifier table
                        ++ (codes " ORDER BY "
                            ++ (escape_identifier column
                                ++ (codes " OFFSET "
                                    ++ (to_string offset
                                        ++ (codes " ROWS FETCH NEXT "
                                            ++ (to_string limit ++ (codes " ROWS ONLY"))))))))))))

unfoldable pub row_count_sql : Text → Text → Text
row_count_sql database table =
    codes "SELECT COUNT(*) FROM "
    ++ (escape_identifier database ++ (codes "." ++ (escape_identifier table)))
