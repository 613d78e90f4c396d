-- ===== src/Schema/Mysql/Reading.antt =====
-- MySQL reads the statements of src/mysql/MySQLSchemaManager.cpp.
use sql_fuse.Base.{[], ap, append-nil, append_assoc, refl, some, ℕ, ◌++◌, ◌∙◌, ◌∷◌, ◌≡◌}
use sql_fuse.Sql.Statements.{Escaping, literal, value_text}
use sql_fuse.Sql.Escapes.{each_char}
use sql_fuse.Sql.Lexer.{backslashes, name, outside, inside, text_kind, lex}
use sql_fuse.Sql.Quoting.{Stands, by_byte, prepend-nil, prepend-nil_twice, lex-single}
use sql_fuse.Sql.Names.{lex-quoted}
use sql_fuse.Sql.Pieces.{Reads, IsSpaced, tokens_of, text_of, lex-text_of}
use sql_fuse.Sql.Spaced.{is_spaced_sound, is_clean-to_string}
use sql_fuse.Schema.Mysql.Queries.{
  escape_identifier, string_char, escape_string, tables_sql, columns_sql, indexes_sql,
  table_info_sql, views_sql, view_info_sql, procedures_sql, functions_sql, routine_info_sql,
  triggers_sql, trigger_info_sql, create_statement_table_sql, create_statement_view_sql,
  create_statement_procedure_sql, create_statement_function_sql, create_statement_trigger_sql,
  row_ids_sql, row_count_sql,
}
use sql_fuse.Schema.Mysql.Statements.{
  Statement, sql_of, for_databases, for_tables, for_columns, for_indexes, for_table_info, for_views,
  for_view_info, for_procedures, for_functions, for_routine_info, for_triggers, for_trigger_info,
  for_create_statement_table, for_create_statement_view, for_create_statement_procedure,
  for_create_statement_function, for_create_statement_trigger, for_server_info_version,
  for_server_info_status, for_server_info_comment, for_users, for_global_variables,
  for_session_variables, for_row_ids, for_row_count,
}
use sql_fuse.Schema.Mysql.Intended.{pieces_of}

abbrev pub escaping : Escaping
escaping = record { escape_identifier = escape_identifier; escape_sql = escape_string }

pub string_char-Stands : Stands backslashes text_kind string_char (λ c. c ∷ [])
unfolding lex
string_char-Stands c s rest =
    let P : ℕ → Type 0 = λ c.
      lex backslashes (inside text_kind s) (string_char c ++ rest)
      ≡ lex backslashes (inside text_kind (s ++ c ∷ [])) rest in
    by_byte P 0 c (prepend-nil_twice _) (λ a. by_byte P b'\n' c (prepend-nil_twice _) (λ b.
      by_byte P b'\r' c (prepend-nil_twice _) (λ d. by_byte P b'\\' c (prepend-nil_twice _) (λ e.
        by_byte P b'\'' c (prepend-nil_twice _) (λ f.
          by_byte P b'"' c (prepend-nil_twice _)
            (λ g. rw (a, b, d, e, f, g) (rw (f, e) (prepend-nil _))))))))

abbrev pub reads : Reads backslashes escaping
unfolding escape_identifier escape_string literal
reads = record {
  names = λ id. name id ∷ [];
  texts = λ value. value;
  lex-escape_identifier = λ id rest h. lex-quoted backslashes id rest h;
  lex-literal = λ value rest h. lex-single backslashes string_char value rest string_char-Stands h;
}

sql_of-text_of : (s : Statement) → sql_of s ≡ text_of escaping (pieces_of s)
unfolding escape_string each_char value_text literal tables_sql columns_sql indexes_sql
    table_info_sql views_sql view_info_sql procedures_sql functions_sql routine_info_sql
    triggers_sql trigger_info_sql create_statement_table_sql create_statement_view_sql
    create_statement_procedure_sql create_statement_function_sql create_statement_trigger_sql
    row_ids_sql row_count_sql
sql_of-text_of for_databases = refl
sql_of-text_of (for_tables database) = refl
sql_of-text_of (for_columns database table) = simp append_assoc
sql_of-text_of (for_indexes database table) = simp append-nil
sql_of-text_of (for_table_info database table) = simp append_assoc
sql_of-text_of (for_views database) = refl
sql_of-text_of (for_view_info database view) = simp append_assoc
sql_of-text_of (for_procedures database) = simp append_assoc
sql_of-text_of (for_functions database) = simp append_assoc
sql_of-text_of (for_routine_info database routine kind) = simp append_assoc
sql_of-text_of (for_triggers database) = simp append_assoc
sql_of-text_of (for_trigger_info database trigger) = simp append_assoc
sql_of-text_of (for_create_statement_table database object) = simp append-nil
sql_of-text_of (for_create_statement_view database object) = simp append-nil
sql_of-text_of (for_create_statement_procedure database object) = simp append-nil
sql_of-text_of (for_create_statement_function database object) = simp append-nil
sql_of-text_of (for_create_statement_trigger database object) = simp append-nil
sql_of-text_of for_server_info_version = refl
sql_of-text_of for_server_info_status = refl
sql_of-text_of for_server_info_comment = refl
sql_of-text_of for_users = refl
sql_of-text_of for_global_variables = refl
sql_of-text_of for_session_variables = refl
sql_of-text_of (for_row_ids database table column limit offset) = simp append-nil
sql_of-text_of (for_row_count database table) = simp append-nil

pieces_of-IsSpaced : (s : Statement) → IsSpaced (pieces_of s)
pieces_of-IsSpaced for_databases = is_spaced_sound (pieces_of for_databases) refl
pieces_of-IsSpaced (for_tables database) = is_spaced_sound (pieces_of (for_tables database)) refl
pieces_of-IsSpaced (for_columns database table) =
    is_spaced_sound (pieces_of (for_columns database table)) refl
pieces_of-IsSpaced (for_indexes database table) =
    is_spaced_sound (pieces_of (for_indexes database table)) refl
pieces_of-IsSpaced (for_table_info database table) =
    is_spaced_sound (pieces_of (for_table_info database table)) refl
pieces_of-IsSpaced (for_views database) = is_spaced_sound (pieces_of (for_views database)) refl
pieces_of-IsSpaced (for_view_info database view) =
    is_spaced_sound (pieces_of (for_view_info database view)) refl
pieces_of-IsSpaced (for_procedures database) =
    is_spaced_sound (pieces_of (for_procedures database)) refl
pieces_of-IsSpaced (for_functions database) =
    is_spaced_sound (pieces_of (for_functions database)) refl
pieces_of-IsSpaced (for_routine_info database routine kind) =
    is_spaced_sound (pieces_of (for_routine_info database routine kind)) refl
pieces_of-IsSpaced (for_triggers database) =
    is_spaced_sound (pieces_of (for_triggers database)) refl
pieces_of-IsSpaced (for_trigger_info database trigger) =
    is_spaced_sound (pieces_of (for_trigger_info database trigger)) refl
pieces_of-IsSpaced (for_create_statement_table database object) =
    is_spaced_sound (pieces_of (for_create_statement_table database object)) refl
pieces_of-IsSpaced (for_create_statement_view database object) =
    is_spaced_sound (pieces_of (for_create_statement_view database object)) refl
pieces_of-IsSpaced (for_create_statement_procedure database object) =
    is_spaced_sound (pieces_of (for_create_statement_procedure database object)) refl
pieces_of-IsSpaced (for_create_statement_function database object) =
    is_spaced_sound (pieces_of (for_create_statement_function database object)) refl
pieces_of-IsSpaced (for_create_statement_trigger database object) =
    is_spaced_sound (pieces_of (for_create_statement_trigger database object)) refl
pieces_of-IsSpaced for_server_info_version =
    is_spaced_sound (pieces_of for_server_info_version) refl
pieces_of-IsSpaced for_server_info_status = is_spaced_sound (pieces_of for_server_info_status) refl
pieces_of-IsSpaced for_server_info_comment =
    is_spaced_sound (pieces_of for_server_info_comment) refl
pieces_of-IsSpaced for_users = is_spaced_sound (pieces_of for_users) refl
pieces_of-IsSpaced for_global_variables = is_spaced_sound (pieces_of for_global_variables) refl
pieces_of-IsSpaced for_session_variables = is_spaced_sound (pieces_of for_session_variables) refl
pieces_of-IsSpaced (for_row_ids database table column limit offset) = (
  refl,
  (
    tt,
    (
      refl,
      (
        tt,
        (
          refl,
          (
            tt,
            (
              refl,
              (tt, (refl, (is_clean-to_string limit, (refl, (is_clean-to_string offset, tt))))),
            ),
          ),
        ),
      ),
    ),
  ),
)
pieces_of-IsSpaced (for_row_count database table) =
    is_spaced_sound (pieces_of (for_row_count database table)) refl

pub lex-mysql_sql :
    (s : Statement) → lex backslashes outside (sql_of s) ≡ some (tokens_of reads (pieces_of s))
lex-mysql_sql s =
    ap (lex backslashes outside) (sql_of-text_of s)
    ∙ lex-text_of reads (pieces_of s) (pieces_of-IsSpaced s)
