-- ===== src/Schema/Mysql/Queries.antt =====
-- The statements of src/mysql/MySQLSchemaManager.cpp.
use sql_fuse.Base.{Text, [], codes, if◌then◌else◌, to_string, ℕ, ◌++◌, ◌==◌, ◌∷◌}
use sql_fuse.Sql.Escapes.{each_char, quoted}

unfoldable pub escape_identifier : Text → Text
unfolding quoted
escape_identifier id = quoted b'`' id

abbrev pub string_char : ℕ → Text
string_char c =
    if c == 0
    then codes "\\0"
    else if c == b'\n'
    then codes "\\n"
    else if c == b'\r'
    then codes "\\r"
    else if c == b'\\'
    then codes "\\\\"
    else if c == b'\''
    then codes "\\'"
    else if c == b'"'
    then codes "\\\""
    else c ∷ []

unfoldable pub escape_string : Text → Text
unfolding each_char
escape_string str = each_char string_char str

abbrev pub databases_sql : Text
databases_sql = codes "SHOW DATABASES"

unfoldable pub tables_sql : Text → Text
tables_sql database =
    codes "SHOW FULL TABLES FROM "
    ++ (escape_identifier database ++ (codes " WHERE Table_type = 'BASE TABLE'"))

unfoldable pub columns_sql : Text → Text → Text
columns_sql database table =
    codes "SELECT COLUMN_NAME, DATA_TYPE, COLUMN_TYPE, IS_NULLABLE, "
    ++ (codes "COLUMN_DEFAULT, EXTRA, COLUMN_KEY, COLLATION_NAME, COLUMN_COMMENT, "
        ++ (codes "ORDINAL_POSITION "
            ++ (codes "FROM INFORMATION_SCHEMA.COLUMNS "
                ++ (codes "WHERE TABLE_SCHEMA = '"
                    ++ (escape_string database
                        ++ (codes "' "
                            ++ (codes "AND TABLE_NAME = '"
                                ++ (escape_string table
                                    ++ (codes "' " ++ (codes "ORDER BY ORDINAL_POSITION"))))))))))

unfoldable pub indexes_sql : Text → Text → Text
indexes_sql database table =
    codes "SHOW INDEX FROM "
    ++ (escape_identifier database ++ (codes "." ++ (escape_identifier table)))

unfoldable pub table_info_sql : Text → Text → Text
table_info_sql database table =
    codes "SELECT TABLE_NAME, ENGINE, TABLE_COLLATION, TABLE_COMMENT, "
    ++ (codes "CREATE_TIME, UPDATE_TIME, TABLE_ROWS, DATA_LENGTH, INDEX_LENGTH, "
        ++ (codes "AUTO_INCREMENT "
            ++ (codes "FROM INFORMATION_SCHEMA.TABLES "
                ++ (codes "WHERE TABLE_SCHEMA = '"
                    ++ (escape_string database
                        ++ (codes "' "
                            ++ (codes "AND TABLE_NAME = '"
                                ++ (escape_string table ++ (codes "'")))))))))

unfoldable pub views_sql : Text → Text
views_sql database =
    codes "SHOW FULL TABLES FROM "
    ++ (escape_identifier database ++ (codes " WHERE Table_type = 'VIEW'"))

unfoldable pub view_info_sql : Text → Text → Text
view_info_sql database view =
    codes "SELECT TABLE_NAME, DEFINER, SECURITY_TYPE, IS_UPDATABLE, CHECK_OPTION "
    ++ (codes "FROM INFORMATION_SCHEMA.VIEWS "
        ++ (codes "WHERE TABLE_SCHEMA = '"
            ++ (escape_string database
                ++ (codes "' "
                    ++ (codes "AND TABLE_NAME = '" ++ (escape_string view ++ (codes "'")))))))

unfoldable pub procedures_sql : Text → Text
procedures_sql database =
    codes "SELECT ROUTINE_NAME FROM INFORMATION_SCHEMA.ROUTINES "
    ++ (codes "WHERE ROUTINE_SCHEMA = '"
        ++ (escape_string database ++ (codes "' " ++ (codes "AND ROUTINE_TYPE = 'PROCEDURE'"))))

unfoldable pub functions_sql : Text → Text
functions_sql database =
    codes "SELECT ROUTINE_NAME FROM INFORMATION_SCHEMA.ROUTINES "
    ++ (codes "WHERE ROUTINE_SCHEMA = '"
        ++ (escape_string database ++ (codes "' " ++ (codes "AND ROUTINE_TYPE = 'FUNCTION'"))))

unfoldable pub routine_info_sql : Text → Text → Text → Text
routine_info_sql database routine kind =
    codes "SELECT ROUTINE_NAME, ROUTINE_TYPE, DEFINER, DATA_TYPE, "
    ++ (codes "SQL_DATA_ACCESS, SECURITY_TYPE, IS_DETERMINISTIC, ROUTINE_COMMENT, "
        ++ (codes "CREATED, LAST_ALTERED "
            ++ (codes "FROM INFORMATION_SCHEMA.ROUTINES "
                ++ (codes "WHERE ROUTINE_SCHEMA = '"
                    ++ (escape_string database
                        ++ (codes "' "
                            ++ (codes "AND ROUTINE_NAME = '"
                                ++ (escape_string routine
                                    ++ (codes "' "
                                        ++ (codes "AND ROUTINE_TYPE = '"
                                            ++ (escape_string kind ++ (codes "'"))))))))))))

unfoldable pub triggers_sql : Text → Text
triggers_sql database =
    codes "SELECT TRIGGER_NAME FROM INFORMATION_SCHEMA.TRIGGERS "
    ++ (codes "WHERE TRIGGER_SCHEMA = '" ++ (escape_string database ++ (codes "'")))

unfoldable pub trigger_info_sql : Text → Text → Text
trigger_info_sql database trigger =
    codes "SELECT TRIGGER_NAME, EVENT_OBJECT_TABLE, EVENT_MANIPULATION, "
    ++ (codes "ACTION_TIMING, ACTION_STATEMENT, DEFINER, CREATED "
        ++ (codes "FROM INFORMATION_SCHEMA.TRIGGERS "
            ++ (codes "WHERE TRIGGER_SCHEMA = '"
                ++ (escape_string database
                    ++ (codes "' "
                        ++ (codes "AND TRIGGER_NAME = '"
                            ++ (escape_string trigger ++ (codes "'"))))))))

unfoldable pub create_statement_table_sql : Text → Text → Text
create_statement_table_sql database object =
    codes "SHOW CREATE TABLE "
    ++ (escape_identifier database ++ (codes "." ++ (escape_identifier object)))

unfoldable pub create_statement_view_sql : Text → Text → Text
create_statement_view_sql database object =
    codes "SHOW CREATE VIEW "
    ++ (escape_identifier database ++ (codes "." ++ (escape_identifier object)))

unfoldable pub create_statement_procedure_sql : Text → Text → Text
create_statement_procedure_sql database object =
    codes "SHOW CREATE PROCEDURE "
    ++ (escape_identifier database ++ (codes "." ++ (escape_identifier object)))

unfoldable pub create_statement_function_sql : Text → Text → Text
create_statement_function_sql database object =
    codes "SHOW CREATE FUNCTION "
    ++ (escape_identifier database ++ (codes "." ++ (escape_identifier object)))

unfoldable pub create_statement_trigger_sql : Text → Text → Text
create_statement_trigger_sql database object =
    codes "SHOW CREATE TRIGGER "
    ++ (escape_identifier database ++ (codes "." ++ (escape_identifier object)))

abbrev pub server_info_version_sql : Text
server_info_version_sql = codes "SELECT VERSION(), @@hostname, @@port"

abbrev pub server_info_status_sql : Text
server_info_status_sql =
    codes "SHOW GLOBAL STATUS WHERE Variable_name IN "
    ++ (codes "('Uptime', 'Threads_connected', 'Threads_running', "
        ++ (codes "'Questions', 'Slow_queries')"))

abbrev pub server_info_comment_sql : Text
server_info_comment_sql = codes "SELECT @@version_comment"

abbrev pub users_sql : Text
users_sql =
    codes "SELECT User, Host, account_locked, password_expired "
    ++ (codes "FROM mysql.user ORDER BY User, Host")

abbrev pub global_variables_sql : Text
global_variables_sql = codes "SHOW GLOBAL VARIABLES"

abbrev pub session_variables_sql : Text
session_variables_sql = codes "SHOW SESSION VARIABLES"

unfoldable pub row_ids_sql : Text → Text → Text → ℕ → ℕ → Text
row_ids_sql database table column limit offset =
    codes "SELECT "
    ++ (escape_identifier column
        ++ (codes " FROM "
            ++ (escape_identifier database
                ++ (codes "."
                    ++ (escape_identifier table
                        ++ (codes " ORDER BY "
                            ++ (escape_identifier column
                                ++ (codes " LIMIT "
                                    ++ (to_string limit
                                        ++ (codes " OFFSET " ++ (to_string offset)))))))))))

unfoldable pub row_count_sql : Text → Text → Text
row_count_sql database table =
    codes "SELECT COUNT(*) FROM "
    ++ (escape_identifier database ++ (codes "." ++ (escape_identifier table)))
