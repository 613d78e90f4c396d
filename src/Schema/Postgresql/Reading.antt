-- ===== src/Schema/Postgresql/Reading.antt =====
-- PostgreSQL reads the statements of src/postgresql/PostgreSQLSchemaManager.cpp.
use sql_fuse.Base.{[], ap, append-nil, append_assoc, refl, some, ◌∙◌, ◌∷◌, ◌≡◌}
use sql_fuse.Sql.Statements.{Escaping, literal, value_text}
use sql_fuse.Sql.Escapes.{each_char, double}
use sql_fuse.Sql.Lexer.{standard, name, outside, text_kind, lex}
use sql_fuse.Sql.Quoting.{double-Stands, lex-single}
use sql_fuse.Sql.Names.{lex-quoted}
use sql_fuse.Sql.Pieces.{Reads, IsSpaced, tokens_of, text_of, lex-text_of}
use sql_fuse.Sql.Spaced.{is_spaced_sound, is_clean-to_string}
use sql_fuse.Schema.Postgresql.Queries.{
  escape_identifier, escape_string, columns_sql, indexes_sql, primary_key_column_sql,
  table_info_sql, view_info_sql, routine_info_sql, trigger_info_sql, create_statement_table_sql,
  create_statement_view_sql, create_statement_function_sql, row_ids_sql, row_count_sql,
}
use sql_fuse.Schema.Postgresql.Statements.{
  Statement, sql_of, for_databases, for_schemas, for_tables, for_columns, for_indexes,
  for_primary_key_column, for_table_info, for_views, for_view_info, for_procedures, for_functions,
  for_routine_info, for_triggers, for_trigger_info, for_create_statement_table,
  for_create_statement_view, for_create_statement_function, for_server_info_version,
  for_server_info_uptime, for_server_info_activity, for_users, for_global_variables, for_row_ids,
  for_row_count,
}
use sql_fuse.Schema.Postgresql.Intended.{pieces_of}

abbrev pub escaping : Escaping
escaping = record { escape_identifier = escape_identifier; escape_sql = escape_string }

abbrev pub reads : Reads standard escaping
unfolding escape_identifier escape_string literal
reads = record {
  names = λ id. name id ∷ [];
  texts = λ value. value;
  lex-escape_identifier = λ id rest h. lex-quoted standard id rest h;
  lex-literal = λ value rest h.
      lex-single standard (double b'\'') value rest (double-Stands standard text_kind (λ c. refl))
        h;
}

sql_of-text_of : (s : Statement) → sql_of s ≡ text_of escaping (pieces_of s)
unfolding escape_string each_char value_text literal columns_sql indexes_sql primary_key_column_sql
    table_info_sql view_info_sql routine_info_sql trigger_info_sql create_statement_table_sql
    create_statement_view_sql create_statement_function_sql row_ids_sql row_count_sql
sql_of-text_of for_databases = refl
sql_of-text_of for_schemas = refl
sql_of-text_of for_tables = refl
sql_of-text_of (for_columns table) = simp append_assoc
sql_of-text_of (for_indexes table) = simp append_assoc
sql_of-text_of (for_primary_key_column table) = simp append_assoc
sql_of-text_of (for_table_info table) = simp append_assoc
sql_of-text_of for_views = refl
sql_of-text_of (for_view_info view) = simp append_assoc
sql_of-text_of for_procedures = refl
sql_of-text_of for_functions = refl
sql_of-text_of (for_routine_info routine kind) = simp append_assoc
sql_of-text_of for_triggers = refl
sql_of-text_of (for_trigger_info trigger) = simp append_assoc
sql_of-text_of (for_create_statement_table object) = simp append_assoc
sql_of-text_of (for_create_statement_view object) = simp append_assoc
sql_of-text_of (for_create_statement_function object) = simp append_assoc
sql_of-text_of for_server_info_version = refl
sql_of-text_of for_server_info_uptime = refl
sql_of-text_of for_server_info_activity = refl
sql_of-text_of for_users = refl
sql_of-text_of for_global_variables = refl
sql_of-text_of (for_row_ids table column limit offset) = simp append-nil
sql_of-text_of (for_row_count table) = simp append-nil

pieces_of-IsSpaced : (s : Statement) → IsSpaced (pieces_of s)
pieces_of-IsSpaced for_databases = is_spaced_sound (pieces_of for_databases) refl
pieces_of-IsSpaced for_schemas = is_spaced_sound (pieces_of for_schemas) refl
pieces_of-IsSpaced for_tables = is_spaced_sound (pieces_of for_tables) refl
pieces_of-IsSpaced (for_columns table) = is_spaced_sound (pieces_of (for_columns table)) refl
pieces_of-IsSpaced (for_indexes table) = is_spaced_sound (pieces_of (for_indexes table)) refl
pieces_of-IsSpaced (for_primary_key_column table) =
    is_spaced_sound (pieces_of (for_primary_key_column table)) refl
pieces_of-IsSpaced (for_table_info table) = is_spaced_sound (pieces_of (for_table_info table)) refl
pieces_of-IsSpaced for_views = is_spaced_sound (pieces_of for_views) refl
pieces_of-IsSpaced (for_view_info view) = is_spaced_sound (pieces_of (for_view_info view)) refl
pieces_of-IsSpaced for_procedures = is_spaced_sound (pieces_of for_procedures) refl
pieces_of-IsSpaced for_functions = is_spaced_sound (pieces_of for_functions) refl
pieces_of-IsSpaced (for_routine_info routine kind) =
    is_spaced_sound (pieces_of (for_routine_info routine kind)) refl
pieces_of-IsSpaced for_triggers = is_spaced_sound (pieces_of for_triggers) refl
pieces_of-IsSpaced (for_trigger_info trigger) =
    is_spaced_sound (pieces_of (for_trigger_info trigger)) refl
pieces_of-IsSpaced (for_create_statement_table object) =
    is_spaced_sound (pieces_of (for_create_statement_table object)) refl
pieces_of-IsSpaced (for_create_statement_view object) =
    is_spaced_sound (pieces_of (for_create_statement_view object)) refl
pieces_of-IsSpaced (for_create_statement_function object) =
    is_spaced_sound (pieces_of (for_create_statement_function object)) refl
pieces_of-IsSpaced for_server_info_version =
    is_spaced_sound (pieces_of for_server_info_version) refl
pieces_of-IsSpaced for_server_info_uptime = is_spaced_sound (pieces_of for_server_info_uptime) refl
pieces_of-IsSpaced for_server_info_activity =
    is_spaced_sound (pieces_of for_server_info_activity) refl
pieces_of-IsSpaced for_users = is_spaced_sound (pieces_of for_users) refl
pieces_of-IsSpaced for_global_variables = is_spaced_sound (pieces_of for_global_variables) refl
pieces_of-IsSpaced (for_row_ids table column limit offset) = (
  refl,
  (
    tt,
    (
      refl,
      (
        tt,
        (refl, (tt, (refl, (is_clean-to_string limit, (refl, (is_clean-to_string offset, tt)))))),
      ),
    ),
  ),
)
pieces_of-IsSpaced (for_row_count table) = is_spaced_sound (pieces_of (for_row_count table)) refl

pub lex-postgresql_sql :
    (s : Statement) → lex standard outside (sql_of s) ≡ some (tokens_of reads (pieces_of s))
lex-postgresql_sql s =
    ap (lex standard outside) (sql_of-text_of s)
    ∙ lex-text_of reads (pieces_of s) (pieces_of-IsSpaced s)
