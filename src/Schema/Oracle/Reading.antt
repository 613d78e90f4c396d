-- ===== src/Schema/Oracle/Reading.antt =====
-- Oracle reads the statements of src/oracle/OracleSchemaManager.cpp.
use sql_fuse.Base.{ap, append-nil, append_assoc, refl, some, ◌∙◌, ◌≡◌}
use sql_fuse.Sql.Statements.{Escaping, literal, value_text}
use sql_fuse.Sql.Escapes.{each_char}
use sql_fuse.Sql.Lexer.{standard, outside, lex}
use sql_fuse.Sql.Oracle
use sql_fuse.Sql.Pieces.{Reads, IsSpaced, tokens_of, text_of, lex-text_of}
use sql_fuse.Sql.Spaced.{is_spaced_sound, is_clean-to_string}
use sql_fuse.Schema.Oracle.Queries.{
  escape_identifier, escape_string, database_exists_sql, tables_sql, table_info_sql,
  table_info_key_sql, columns_sql, indexes_sql, table_exists_sql, views_sql, view_info_sql,
  procedures_sql, functions_sql, routine_info_sql, triggers_sql, trigger_info_sql,
  create_statement_sql, create_statement_view_text_sql, row_ids_sql, row_count_sql,
}
use sql_fuse.Schema.Oracle.Statements.{
  Statement, sql_of, for_databases, for_database_exists, for_tables, for_table_info,
  for_table_info_key, for_columns, for_indexes, for_table_exists, for_views, for_view_info,
  for_procedures, for_functions, for_routine_info, for_triggers, for_trigger_info,
  for_create_statement_table, for_create_statement_view, for_create_statement_trigger,
  for_create_statement_procedure, for_create_statement_function, for_create_statement_view_text,
  for_server_info_version, for_server_info_instance, for_users, for_global_variables,
  for_session_variables, for_row_ids, for_row_count,
}
use sql_fuse.Schema.Oracle.Intended.{pieces_of}

abbrev pub escaping : Escaping
escaping = record { escape_identifier = escape_identifier; escape_sql = escape_string }

abbrev pub reads : Reads standard escaping
unfolding escape_identifier escape_string
reads = record {
  names = Oracle.reads.names;
  texts = Oracle.reads.texts;
  lex-escape_identifier = Oracle.reads.lex-escape_identifier;
  lex-literal = Oracle.reads.lex-literal;
}

sql_of-text_of : (s : Statement) → sql_of s ≡ text_of escaping (pieces_of s)
unfolding escape_string each_char value_text literal database_exists_sql tables_sql table_info_sql
    table_info_key_sql columns_sql indexes_sql table_exists_sql views_sql view_info_sql
    procedures_sql functions_sql routine_info_sql triggers_sql trigger_info_sql create_statement_sql
    create_statement_view_text_sql row_ids_sql row_count_sql
sql_of-text_of for_databases = refl
sql_of-text_of (for_database_exists database) = simp append_assoc
sql_of-text_of (for_tables database) = simp append_assoc
sql_of-text_of (for_table_info database table) = simp append_assoc
sql_of-text_of (for_table_info_key database table) = simp append_assoc
sql_of-text_of (for_columns database table) = simp append_assoc
sql_of-text_of (for_indexes database table) = simp append_assoc
sql_of-text_of (for_table_exists database table) = simp append_assoc
sql_of-text_of (for_views database) = simp append_assoc
sql_of-text_of (for_view_info database view) = simp append_assoc
sql_of-text_of (for_procedures database) = simp append_assoc
sql_of-text_of (for_functions database) = simp append_assoc
sql_of-text_of (for_routine_info database routine kind) = simp append_assoc
sql_of-text_of (for_triggers database) = simp append_assoc
sql_of-text_of (for_trigger_info database trigger) = simp append_assoc
sql_of-text_of (for_create_statement_table database object) = simp append_assoc
sql_of-text_of (for_create_statement_view database object) = simp append_assoc
sql_of-text_of (for_create_statement_trigger database object) = simp append_assoc
sql_of-text_of (for_create_statement_procedure database object) = simp append_assoc
sql_of-text_of (for_create_statement_function database object) = simp append_assoc
sql_of-text_of (for_create_statement_view_text database object) = simp append_assoc
sql_of-text_of for_server_info_version = refl
sql_of-text_of for_server_info_instance = refl
sql_of-text_of for_users = refl
sql_of-text_of for_global_variables = refl
sql_of-text_of for_session_variables = refl
sql_of-text_of (for_row_ids database table column limit offset) = refl
sql_of-text_of (for_row_count database table) = simp append-nil

pieces_of-IsSpaced : (s : Statement) → IsSpaced (pieces_of s)
pieces_of-IsSpaced for_databases = is_spaced_sound (pieces_of for_databases) refl
pieces_of-IsSpaced (for_database_exists database) =
    is_spaced_sound (pieces_of (for_database_exists database)) refl
pieces_of-IsSpaced (for_tables database) = is_spaced_sound (pieces_of (for_tables database)) refl
pieces_of-IsSpaced (for_table_info database table) =
    is_spaced_sound (pieces_of (for_table_info database table)) refl
pieces_of-IsSpaced (for_table_info_key database table) =
    is_spaced_sound (pieces_of (for_table_info_key database table)) refl
pieces_of-IsSpaced (for_columns database table) =
    is_spaced_sound (pieces_of (for_columns database table)) refl
pieces_of-IsSpaced (for_indexes database table) =
    is_spaced_sound (pieces_of (for_indexes database table)) refl
pieces_of-IsSpaced (for_table_exists database table) =
    is_spaced_sound (pieces_of (for_table_exists database table)) refl
pieces_of-IsSpaced (for_views database) = is_spaced_sound (pieces_of (for_views database)) refl
pieces_of-IsSpaced (for_view_info database view) =
    is_spaced_sound (pieces_of (for_view_info database view)) refl
pieces_of-IsSpaced (for_procedures database) =
    is_spaced_sound (pieces_of (for_procedures database)) refl
pieces_of-IsSpaced (for_functions database) =
    is_spaced_sound (pieces_of (for_functions database)) refl
pieces_of-IsSpaced (for_routine_info database routine kind) =
    is_spaced_sound (pieces_of (for_routine_info database routine kind)) refl
pieces_of-IsSpaced (for_triggers database) =
    is_spaced_sound (pieces_of (for_triggers database)) refl
pieces_of-IsSpaced (for_trigger_info database trigger) =
    is_spaced_sound (pieces_of (for_trigger_info database trigger)) refl
pieces_of-IsSpaced (for_create_statement_table database object) =
    is_spaced_sound (pieces_of (for_create_statement_table database object)) refl
pieces_of-IsSpaced (for_create_statement_view database object) =
    is_spaced_sound (pieces_of (for_create_statement_view database object)) refl
pieces_of-IsSpaced (for_create_statement_trigger database object) =
    is_spaced_sound (pieces_of (for_create_statement_trigger database object)) refl
pieces_of-IsSpaced (for_create_statement_procedure database object) =
    is_spaced_sound (pieces_of (for_create_statement_procedure database object)) refl
pieces_of-IsSpaced (for_create_statement_function database object) =
    is_spaced_sound (pieces_of (for_create_statement_function database object)) refl
pieces_of-IsSpaced (for_create_statement_view_text database object) =
    is_spaced_sound (pieces_of (for_create_statement_view_text database object)) refl
pieces_of-IsSpaced for_server_info_version =
    is_spaced_sound (pieces_of for_server_info_version) refl
pieces_of-IsSpaced for_server_info_instance =
    is_spaced_sound (pieces_of for_server_info_instance) refl
pieces_of-IsSpaced for_users = is_spaced_sound (pieces_of for_users) refl
pieces_of-IsSpaced for_global_variables = is_spaced_sound (pieces_of for_global_variables) refl
pieces_of-IsSpaced for_session_variables = is_spaced_sound (pieces_of for_session_variables) refl
pieces_of-IsSpaced (for_row_ids database table column limit offset) = (
  refl,
  (
    tt,
    (
      refl,
      (
        tt,
        (
          refl,
          (
            tt,
            (
              refl,
              (
                tt,
                (refl, (is_clean-to_string offset, (refl, (is_clean-to_string limit, (refl, tt))))),
              ),
            ),
          ),
        ),
      ),
    ),
  ),
)
pieces_of-IsSpaced (for_row_count database table) =
    is_spaced_sound (pieces_of (for_row_count database table)) refl

pub lex-oracle_sql :
    (s : Statement) → lex standard outside (sql_of s) ≡ some (tokens_of reads (pieces_of s))
lex-oracle_sql s =
    ap (lex standard outside) (sql_of-text_of s)
    ∙ lex-text_of reads (pieces_of s) (pieces_of-IsSpaced s)
