-- ===== src/Schema/Postgresql/Queries.antt =====
-- The statements of src/postgresql/PostgreSQLSchemaManager.cpp.
use sql_fuse.Base.{Text, codes, to_string, ℕ, ◌++◌}
use sql_fuse.Sql.Escapes.{each_char, double, quoted}

unfoldable pub escape_identifier : Text → Text
unfolding quoted
escape_identifier id = quoted b'"' id

unfoldable pub escape_string : Text → Text
unfolding each_char
escape_string str = each_char (double b'\'') str

abbrev pub databases_sql : Text
databases_sql =
    codes "SELECT datname FROM pg_database WHERE datistemplate = false ORDER BY "
    ++ (codes "datname")

abbrev pub schemas_sql : Text
schemas_sql =
    codes "SELECT schema_name FROM information_schema.schemata "
    ++ (codes "WHERE catalog_name = current_database() "
        ++ (codes "AND schema_name NOT IN ('pg_catalog', 'information_schema', 'pg_toast') "
            ++ (codes "ORDER BY schema_name")))

abbrev pub tables_sql : Text
tables_sql =
    codes "SELECT table_name FROM information_schema.tables "
    ++ (codes "WHERE table_schema = 'public' "
        ++ (codes "AND table_type = 'BASE TABLE' " ++ (codes "ORDER BY table_name")))

unfoldable pub columns_sql : Text → Text
columns_sql table =
    codes "SELECT c.column_name, c.data_type, c.udt_name, c.is_nullable, "
    ++ (codes "c.column_default, c.character_maximum_length, c.numeric_precision, "
        ++ (codes "c.numeric_scale, c.ordinal_position, "
            ++ (codes "CASE WHEN pk.column_name IS NOT NULL THEN 'PRI' ELSE '' END as "
                ++ (codes "column_key "
                    ++ (codes "FROM information_schema.columns c "
                        ++ (codes "LEFT JOIN ("
                            ++ (codes "  SELECT kcu.column_name "
                                ++ (codes "  FROM information_schema.table_constraints tc "
                                    ++ (codes "  JOIN information_schema.key_column_usage kcu "
                                        ++ (codes "    ON tc.constraint_name = kcu.constraint_name "
                                            ++ (codes "  WHERE tc.table_schema = 'public' "
                                                ++ (codes "    AND tc.table_name = '"
                                                    ++ (escape_string table
                                                        ++ (codes "' "
                                                            ++ (codes
                                                            "    AND tc.constraint_type = 'PRIMARY KEY'"
                                                            ++ (codes
                                                            ") pk ON c.column_name = pk.column_name "
                                                            ++ (codes
                                                            "WHERE c.table_schema = 'public' "
                                                            ++ (codes "AND c.table_name = '"
                                                            ++ (escape_string table
                                                            ++ (codes "' "
                                                            ++ (codes
                                                            "ORDER BY c.ordinal_position")))))))))))))))))))))

unfoldable pub indexes_sql : Text → Text
indexes_sql table =
    codes "SELECT i.relname as index_name, "
    ++ (codes "       ix.indisunique as is_unique, "
        ++ (codes "       ix.indisprimary as is_primary, "
            ++ (codes "       am.amname as index_type, "
                ++ (codes "       array_to_string(array_agg(a.attname ORDER BY k.n), ',') as "
                    ++ (codes "columns "
                        ++ (codes "FROM pg_index ix "
                            ++ (codes "JOIN pg_class t ON t.oid = ix.indrelid "
                                ++ (codes "JOIN pg_class i ON i.oid = ix.indexrelid "
                                    ++ (codes "JOIN pg_am am ON i.relam = am.oid "
                                        ++ (codes "JOIN pg_namespace n ON n.oid = t.relnamespace "
                                            ++ (codes
                                                  "JOIN generate_subscripts(ix.indkey, 1) k(n) ON true "
                                                ++ (codes
                                                      "JOIN pg_attribute a ON a.attrelid = t.oid AND a.attnum = ix.indkey[k.n] "
                                                    ++ (codes "WHERE n.nspname = 'public' "
                                                        ++ (codes "AND t.relname = '"
                                                            ++ (escape_string table
                                                            ++ (codes "' "
                                                            ++ (codes
                                                            "GROUP BY i.relname, ix.indisunique, ix.indisprimary, am.amname "
                                                            ++ (codes
                                                            "ORDER BY i.relname"))))))))))))))))))

unfoldable pub primary_key_column_sql : Text → Text
primary_key_column_sql table =
    codes "SELECT a.attname "
    ++ (codes "FROM pg_index i "
        ++ (codes "JOIN pg_attribute a ON a.attrelid = i.indrelid AND a.attnum = "
            ++ (codes "ANY(i.indkey) "
                ++ (codes "JOIN pg_class c ON c.oid = i.indrelid "
                    ++ (codes "JOIN pg_namespace n ON n.oid = c.relnamespace "
                        ++ (codes "WHERE i.indisprimary "
                            ++ (codes "AND n.nspname = 'public' "
                                ++ (codes "AND c.relname = '"
                                    ++ (escape_string table
                                        ++ (codes "' " ++ (codes "LIMIT 1")))))))))))

unfoldable pub table_info_sql : Text → Text
table_info_sql table =
    codes "SELECT t.table_name, "
    ++ (codes "       "
        ++ (codes "pg_size_pretty(pg_total_relation_size(quote_ident(t.table_name))) as "
            ++ (codes "total_size, "
                ++ (codes "       pg_total_relation_size(quote_ident(t.table_name)) as "
                    ++ (codes "data_length, "
                        ++ (codes "       c.reltuples::bigint as row_estimate "
                            ++ (codes "FROM information_schema.tables t "
                                ++ (codes "JOIN pg_class c ON c.relname = t.table_name "
                                    ++ (codes
                                          "JOIN pg_namespace n ON n.oid = c.relnamespace AND n.nspname = "
                                        ++ (codes "t.table_schema "
                                            ++ (codes "WHERE t.table_schema = 'public' "
                                                ++ (codes "AND t.table_name = '"
                                                    ++ (escape_string table
                                                        ++ (codes "'"))))))))))))))

abbrev pub views_sql : Text
views_sql =
    codes "SELECT table_name FROM information_schema.views "
    ++ (codes "WHERE table_schema = 'public' " ++ (codes "ORDER BY table_name"))

unfoldable pub view_info_sql : Text → Text
view_info_sql view =
    codes "SELECT table_name, view_definition, is_updatable, check_option "
    ++ (codes "FROM information_schema.views "
        ++ (codes "WHERE table_schema = 'public' "
            ++ (codes "AND table_name = '" ++ (escape_string view ++ (codes "'")))))

abbrev pub procedures_sql : Text
procedures_sql =
    codes "SELECT routine_name FROM information_schema.routines "
    ++ (codes "WHERE routine_schema = 'public' "
        ++ (codes "AND routine_type = 'PROCEDURE' " ++ (codes "ORDER BY routine_name")))

abbrev pub functions_sql : Text
functions_sql =
    codes "SELECT routine_name FROM information_schema.routines "
    ++ (codes "WHERE routine_schema = 'public' "
        ++ (codes "AND routine_type = 'FUNCTION' " ++ (codes "ORDER BY routine_name")))

unfoldable pub routine_info_sql : Text → Text → Text
routine_info_sql routine kind =
    codes "SELECT routine_name, routine_type, data_type, security_type, "
    ++ (codes "       is_deterministic, routine_definition "
        ++ (codes "FROM information_schema.routines "
            ++ (codes "WHERE routine_schema = 'public' "
                ++ (codes "AND routine_name = '"
                    ++ (escape_string routine
                        ++ (codes "' "
                            ++ (codes "AND routine_type = '"
                                ++ (escape_string kind ++ (codes "'")))))))))

abbrev pub triggers_sql : Text
triggers_sql =
    codes "SELECT trigger_name FROM information_schema.triggers "
    ++ (codes "WHERE trigger_schema = 'public' " ++ (codes "ORDER BY trigger_name"))

unfoldable pub trigger_info_sql : Text → Text
trigger_info_sql trigger =
    codes "SELECT trigger_name, event_object_table, event_manipulation, "
    ++ (codes "       action_timing, action_statement "
        ++ (codes "FROM information_schema.triggers "
            ++ (codes "WHERE trigger_schema = 'public' "
                ++ (codes "AND trigger_name = '" ++ (escape_string trigger ++ (codes "'"))))))

unfoldable pub create_statement_table_sql : Text → Text
create_statement_table_sql object =
    codes "SELECT 'CREATE TABLE ' || quote_ident(table_name) || ' (' || "
    ++ (codes "string_agg(column_name || ' ' || data_type || "
        ++ (codes "  CASE WHEN character_maximum_length IS NOT NULL "
            ++ (codes "       THEN '(' || character_maximum_length || ')' ELSE '' END || "
                ++ (codes "  CASE WHEN is_nullable = 'NO' THEN ' NOT NULL' ELSE '' END, ', ') || "
                    ++ (codes "');' "
                        ++ (codes "FROM information_schema.columns "
                            ++ (codes "WHERE table_schema = 'public' "
                                ++ (codes "AND table_name = '"
                                    ++ (escape_string object
                                        ++ (codes "' " ++ (codes "GROUP BY table_name")))))))))))

unfoldable pub create_statement_view_sql : Text → Text
create_statement_view_sql object =
    codes "SELECT 'CREATE VIEW ' || quote_ident(table_name) || ' AS ' || "
    ++ (codes "view_definition "
        ++ (codes "FROM information_schema.views "
            ++ (codes "WHERE table_schema = 'public' "
                ++ (codes "AND table_name = '" ++ (escape_string object ++ (codes "'"))))))

unfoldable pub create_statement_function_sql : Text → Text
create_statement_function_sql object =
    codes "SELECT pg_get_functiondef(p.oid) "
    ++ (codes "FROM pg_proc p "
        ++ (codes "JOIN pg_namespace n ON n.oid = p.pronamespace "
            ++ (codes "WHERE n.nspname = 'public' "
                ++ (codes "AND p.proname = '"
                    ++ (escape_string object ++ (codes "' " ++ (codes "LIMIT 1")))))))

abbrev pub server_info_version_sql : Text
server_info_version_sql = codes "SELECT version(), inet_server_addr()::text, inet_server_port()"

abbrev pub server_info_uptime_sql : Text
server_info_uptime_sql =
    codes "SELECT EXTRACT(EPOCH FROM (now() - pg_postmaster_start_time()))::bigint"

abbrev pub server_info_activity_sql : Text
server_info_activity_sql = codes "SELECT count(*) FROM pg_stat_activity WHERE state IS NOT NULL"

abbrev pub users_sql : Text
users_sql =
    codes "SELECT usename, CASE WHEN passwd IS NULL THEN 'N' ELSE 'Y' END as "
    ++ (codes "has_pass, " ++ (codes "       valuntil " ++ (codes "FROM pg_user ORDER BY usename")))

abbrev pub global_variables_sql : Text
global_variables_sql = codes "SHOW ALL"

unfoldable pub row_ids_sql : Text → Text → ℕ → ℕ → Text
row_ids_sql table column limit offset =
    codes "SELECT "
    ++ (escape_identifier column
        ++ (codes " FROM "
            ++ (escape_identifier table
                ++ (codes " ORDER BY "
                    ++ (escape_identifier column
                        ++ (codes " LIMIT "
                            ++ (to_string limit ++ (codes " OFFSET " ++ (to_string offset)))))))))

unfoldable pub row_count_sql : Text → Text
row_count_sql table = codes "SELECT COUNT(*) FROM " ++ (escape_identifier table)
