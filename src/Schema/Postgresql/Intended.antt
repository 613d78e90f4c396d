-- ===== src/Schema/Postgresql/Intended.antt =====
-- What the statements of src/postgresql/PostgreSQLSchemaManager.cpp are meant to be.
use sql_fuse.Base.{List, [], codes, some, to_string, ◌∷◌}
use sql_fuse.Sql.Pieces.{Piece, word, identifier, value}
use sql_fuse.Schema.Postgresql.Statements.{
  Statement, for_databases, for_schemas, for_tables, for_columns, for_indexes,
  for_primary_key_column, for_table_info, for_views, for_view_info, for_procedures, for_functions,
  for_routine_info, for_triggers, for_trigger_info, for_create_statement_table,
  for_create_statement_view, for_create_statement_function, for_server_info_version,
  for_server_info_uptime, for_server_info_activity, for_users, for_global_variables, for_row_ids,
  for_row_count,
}

-- The words, the names and the values that each statement is meant to be.
abbrev pub pieces_of : Statement → List Piece
pieces_of for_databases =
    word (codes "SELECT datname FROM pg_database WHERE datistemplate = false ORDER BY ")
    ∷ word (codes "datname")
    ∷ []
pieces_of for_schemas =
    word (codes "SELECT schema_name FROM information_schema.schemata WHERE catalog_name ")
    ∷ word (codes "= current_database() AND schema_name NOT IN (")
    ∷ value (some (codes "pg_catalog"))
    ∷ word (codes ", ")
    ∷ value (some (codes "information_schema"))
    ∷ word (codes ", ")
    ∷ value (some (codes "pg_toast"))
    ∷ word (codes ") ORDER BY schema_name")
    ∷ []
pieces_of for_tables =
    word (codes "SELECT table_name FROM information_schema.tables WHERE table_schema = ")
    ∷ value (some (codes "public"))
    ∷ word (codes " AND table_type = ")
    ∷ value (some (codes "BASE TABLE"))
    ∷ word (codes " ORDER BY table_name")
    ∷ []
pieces_of (for_columns table) =
    word (codes "SELECT c.column_name, c.data_type, c.udt_name, c.is_nullable, ")
    ∷ word (codes "c.column_default, c.character_maximum_length, c.numeric_precision, ")
    ∷ word (codes "c.numeric_scale, c.ordinal_position, CASE WHEN pk.column_name IS NOT ")
    ∷ word (codes "NULL THEN ")
    ∷ value (some (codes "PRI"))
    ∷ word (codes " ELSE ")
    ∷ value (some [])
    ∷ word (codes " END as column_key FROM information_schema.columns c LEFT JOIN (  ")
    ∷ word (codes "SELECT kcu.column_name   FROM information_schema.table_constraints tc   ")
    ∷ word (codes "JOIN information_schema.key_column_usage kcu     ON tc.constraint_name ")
    ∷ word (codes "= kcu.constraint_name   WHERE tc.table_schema = ")
    ∷ value (some (codes "public"))
    ∷ word (codes "     AND tc.table_name = ")
    ∷ value (some table)
    ∷ word (codes "     AND tc.constraint_type = ")
    ∷ value (some (codes "PRIMARY KEY"))
    ∷ word (codes ") pk ON c.column_name = pk.column_name WHERE c.table_schema = ")
    ∷ value (some (codes "public"))
    ∷ word (codes " AND c.table_name = ")
    ∷ value (some table)
    ∷ word (codes " ORDER BY c.ordinal_position")
    ∷ []
pieces_of (for_indexes table) =
    word (codes "SELECT i.relname as index_name,        ix.indisunique as is_unique,     ")
    ∷ word (codes "   ix.indisprimary as is_primary,        am.amname as index_type,       ")
    ∷ word (codes " array_to_string(array_agg(a.attname ORDER BY k.n), ")
    ∷ value (some (codes ","))
    ∷ word (codes ") as columns FROM pg_index ix JOIN pg_class t ON t.oid = ix.indrelid ")
    ∷ word (codes "JOIN pg_class i ON i.oid = ix.indexrelid JOIN pg_am am ON i.relam = ")
    ∷ word (codes "am.oid JOIN pg_namespace n ON n.oid = t.relnamespace JOIN ")
    ∷ word (codes "generate_subscripts(ix.indkey, 1) k(n) ON true JOIN pg_attribute a ON ")
    ∷ word (codes "a.attrelid = t.oid AND a.attnum = ix.indkey[k.n] WHERE n.nspname = ")
    ∷ value (some (codes "public"))
    ∷ word (codes " AND t.relname = ")
    ∷ value (some table)
    ∷ word (codes " GROUP BY i.relname, ix.indisunique, ix.indisprimary, am.amname ORDER ")
    ∷ word (codes "BY i.relname")
    ∷ []
pieces_of (for_primary_key_column table) =
    word (codes "SELECT a.attname FROM pg_index i JOIN pg_attribute a ON a.attrelid = ")
    ∷ word (codes "i.indrelid AND a.attnum = ANY(i.indkey) JOIN pg_class c ON c.oid = ")
    ∷ word (codes "i.indrelid JOIN pg_namespace n ON n.oid = c.relnamespace WHERE ")
    ∷ word (codes "i.indisprimary AND n.nspname = ")
    ∷ value (some (codes "public"))
    ∷ word (codes " AND c.relname = ")
    ∷ value (some table)
    ∷ word (codes " LIMIT 1")
    ∷ []
pieces_of (for_table_info table) =
    word (codes "SELECT t.table_name,        ")
    ∷ word (codes "pg_size_pretty(pg_total_relation_size(quote_ident(t.table_name))) as ")
    ∷ word (codes "total_size,        pg_total_relation_size(quote_ident(t.table_name)) as ")
    ∷ word (codes "data_length,        c.reltuples::bigint as row_estimate FROM ")
    ∷ word (codes "information_schema.tables t JOIN pg_class c ON c.relname = t.table_name ")
    ∷ word (codes "JOIN pg_namespace n ON n.oid = c.relnamespace AND n.nspname = ")
    ∷ word (codes "t.table_schema WHERE t.table_schema = ")
    ∷ value (some (codes "public"))
    ∷ word (codes " AND t.table_name = ")
    ∷ value (some table)
    ∷ []
pieces_of for_views =
    word (codes "SELECT table_name FROM information_schema.views WHERE table_schema = ")
    ∷ value (some (codes "public"))
    ∷ word (codes " ORDER BY table_name")
    ∷ []
pieces_of (for_view_info view) =
    word (codes "SELECT table_name, view_definition, is_updatable, check_option FROM ")
    ∷ word (codes "information_schema.views WHERE table_schema = ")
    ∷ value (some (codes "public"))
    ∷ word (codes " AND table_name = ")
    ∷ value (some view)
    ∷ []
pieces_of for_procedures =
    word (codes "SELECT routine_name FROM information_schema.routines WHERE ")
    ∷ word (codes "routine_schema = ")
    ∷ value (some (codes "public"))
    ∷ word (codes " AND routine_type = ")
    ∷ value (some (codes "PROCEDURE"))
    ∷ word (codes " ORDER BY routine_name")
    ∷ []
pieces_of for_functions =
    word (codes "SELECT routine_name FROM information_schema.routines WHERE ")
    ∷ word (codes "routine_schema = ")
    ∷ value (some (codes "public"))
    ∷ word (codes " AND routine_type = ")
    ∷ value (some (codes "FUNCTION"))
    ∷ word (codes " ORDER BY routine_name")
    ∷ []
pieces_of (for_routine_info routine kind) =
    word (codes "SELECT routine_name, routine_type, data_type, security_type,        ")
    ∷ word (codes "is_deterministic, routine_definition FROM information_schema.routines ")
    ∷ word (codes "WHERE routine_schema = ")
    ∷ value (some (codes "public"))
    ∷ word (codes " AND routine_name = ")
    ∷ value (some routine)
    ∷ word (codes " AND routine_type = ")
    ∷ value (some kind)
    ∷ []
pieces_of for_triggers =
    word (codes "SELECT trigger_name FROM information_schema.triggers WHERE ")
    ∷ word (codes "trigger_schema = ")
    ∷ value (some (codes "public"))
    ∷ word (codes " ORDER BY trigger_name")
    ∷ []
pieces_of (for_trigger_info trigger) =
    word (codes "SELECT trigger_name, event_object_table, event_manipulation,        ")
    ∷ word (codes "action_timing, action_statement FROM information_schema.triggers WHERE ")
    ∷ word (codes "trigger_schema = ")
    ∷ value (some (codes "public"))
    ∷ word (codes " AND trigger_name = ")
    ∷ value (some trigger)
    ∷ []
pieces_of (for_create_statement_table object) =
    word (codes "SELECT ")
    ∷ value (some (codes "CREATE TABLE "))
    ∷ word (codes " || quote_ident(table_name) || ")
    ∷ value (some (codes " ("))
    ∷ word (codes " || string_agg(column_name || ")
    ∷ value (some (codes " "))
    ∷ word (codes " || data_type ||   CASE WHEN character_maximum_length IS NOT NULL       ")
    ∷ word (codes " THEN ")
    ∷ value (some (codes "("))
    ∷ word (codes " || character_maximum_length || ")
    ∷ value (some (codes ")"))
    ∷ word (codes " ELSE ")
    ∷ value (some [])
    ∷ word (codes " END ||   CASE WHEN is_nullable = ")
    ∷ value (some (codes "NO"))
    ∷ word (codes " THEN ")
    ∷ value (some (codes " NOT NULL"))
    ∷ word (codes " ELSE ")
    ∷ value (some [])
    ∷ word (codes " END, ")
    ∷ value (some (codes ", "))
    ∷ word (codes ") || ")
    ∷ value (some (codes ");"))
    ∷ word (codes " FROM information_schema.columns WHERE table_schema = ")
    ∷ value (some (codes "public"))
    ∷ word (codes " AND table_name = ")
    ∷ value (some object)
    ∷ word (codes " GROUP BY table_name")
    ∷ []
pieces_of (for_create_statement_view object) =
    word (codes "SELECT ")
    ∷ value (some (codes "CREATE VIEW "))
    ∷ word (codes " || quote_ident(table_name) || ")
    ∷ value (some (codes " AS "))
    ∷ word (codes " || view_definition FROM information_schema.views WHERE table_schema = ")
    ∷ value (some (codes "public"))
    ∷ word (codes " AND table_name = ")
    ∷ value (some object)
    ∷ []
pieces_of (for_create_statement_function object) =
    word (codes "SELECT pg_get_functiondef(p.oid) FROM pg_proc p JOIN pg_namespace n ON ")
    ∷ word (codes "n.oid = p.pronamespace WHERE n.nspname = ")
    ∷ value (some (codes "public"))
    ∷ word (codes " AND p.proname = ")
    ∷ value (some object)
    ∷ word (codes " LIMIT 1")
    ∷ []
pieces_of for_server_info_version =
    word (codes "SELECT version(), inet_server_addr()::text, inet_server_port()") ∷ []
pieces_of for_server_info_uptime =
    word (codes "SELECT EXTRACT(EPOCH FROM (now() - pg_postmaster_start_time()))::bigint") ∷ []
pieces_of for_server_info_activity =
    word (codes "SELECT count(*) FROM pg_stat_activity WHERE state IS NOT NULL") ∷ []
pieces_of for_users =
    word (codes "SELECT usename, CASE WHEN passwd IS NULL THEN ")
    ∷ value (some (codes "N"))
    ∷ word (codes " ELSE ")
    ∷ value (some (codes "Y"))
    ∷ word (codes " END as has_pass,        valuntil FROM pg_user ORDER BY usename")
    ∷ []
pieces_of for_global_variables = word (codes "SHOW ALL") ∷ []
pieces_of (for_row_ids table column limit offset) =
    word (codes "SELECT ")
    ∷ identifier column
    ∷ word (codes " FROM ")
    ∷ identifier table
    ∷ word (codes " ORDER BY ")
    ∷ identifier column
    ∷ word (codes " LIMIT ")
    ∷ word (to_string limit)
    ∷ word (codes " OFFSET ")
    ∷ word (to_string offset)
    ∷ []
pieces_of (for_row_count table) = word (codes "SELECT COUNT(*) FROM ") ∷ identifier table ∷ []
