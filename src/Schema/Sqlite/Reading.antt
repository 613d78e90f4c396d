-- ===== src/Schema/Sqlite/Reading.antt =====
-- SQLite reads the statements of src/sqlite/SQLiteSchemaManager.cpp.
use sql_fuse.Base.{[], ap, append-nil, append_assoc, refl, some, ◌∙◌, ◌∷◌, ◌≡◌}
use sql_fuse.Sql.Statements.{Escaping, literal, value_text}
use sql_fuse.Sql.Escapes.{each_char, double}
use sql_fuse.Sql.Lexer.{standard, name, outside, text_kind, lex}
use sql_fuse.Sql.Quoting.{double-Stands, lex-single}
use sql_fuse.Sql.Names.{lex-quoted}
use sql_fuse.Sql.Pieces.{Reads, IsSpaced, tokens_of, text_of, lex-text_of}
use sql_fuse.Sql.Spaced.{is_spaced_sound, is_clean-to_string}
use sql_fuse.Schema.Sqlite.Queries.{
  escape_identifier, escape_string, tables_sql, columns_sql, indexes_sql, indexes_columns_sql,
  primary_key_column_sql, table_info_sql, views_sql, view_info_sql, triggers_sql, trigger_info_sql,
  create_statement_sql, global_variables_pragma_sql, row_ids_sql, row_count_sql,
}
use sql_fuse.Schema.Sqlite.Statements.{
  Statement, sql_of, for_databases, for_tables, for_columns, for_indexes, for_indexes_columns,
  for_primary_key_column, for_table_info, for_views, for_view_info, for_triggers, for_trigger_info,
  for_create_statement_table, for_create_statement_view, for_create_statement_trigger,
  for_create_statement_index, for_global_variables, for_row_ids, for_row_count,
}
use sql_fuse.Schema.Sqlite.Intended.{pieces_of}

abbrev pub escaping : Escaping
escaping = record { escape_identifier = escape_identifier; escape_sql = escape_string }

abbrev pub reads : Reads standard escaping
unfolding escape_identifier escape_string literal
reads = record {
  names = λ id. name id ∷ [];
  texts = λ value. value;
  lex-escape_identifier = λ id rest h. lex-quoted standard id rest h;
  lex-literal = λ value rest h.
      lex-single standard (double b'\'') value rest (double-Stands standard text_kind (λ c. refl))
        h;
}

sql_of-text_of : (s : Statement) → sql_of s ≡ text_of escaping (pieces_of s)
unfolding escape_string each_char value_text literal tables_sql columns_sql indexes_sql
    indexes_columns_sql primary_key_column_sql table_info_sql views_sql view_info_sql triggers_sql
    trigger_info_sql create_statement_sql global_variables_pragma_sql row_ids_sql row_count_sql
sql_of-text_of for_databases = refl
sql_of-text_of (for_tables database) = refl
sql_of-text_of (for_columns database table) = refl
sql_of-text_of (for_indexes database table) = refl
sql_of-text_of (for_indexes_columns database index) = refl
sql_of-text_of (for_primary_key_column table) = refl
sql_of-text_of (for_table_info database table) = simp append-nil
sql_of-text_of (for_views database) = refl
sql_of-text_of (for_view_info database view) = simp append_assoc
sql_of-text_of (for_triggers database) = refl
sql_of-text_of (for_trigger_info database trigger) = simp append_assoc
sql_of-text_of (for_create_statement_table database object) = simp append_assoc
sql_of-text_of (for_create_statement_view database object) = simp append_assoc
sql_of-text_of (for_create_statement_trigger database object) = simp append_assoc
sql_of-text_of (for_create_statement_index database object) = simp append_assoc
sql_of-text_of for_global_variables = refl
sql_of-text_of (for_row_ids database table column limit offset) = simp append-nil
sql_of-text_of (for_row_count database table) = simp append-nil

pieces_of-IsSpaced : (s : Statement) → IsSpaced (pieces_of s)
pieces_of-IsSpaced for_databases = is_spaced_sound (pieces_of for_databases) refl
pieces_of-IsSpaced (for_tables database) = is_spaced_sound (pieces_of (for_tables database)) refl
pieces_of-IsSpaced (for_columns database table) =
    is_spaced_sound (pieces_of (for_columns database table)) refl
pieces_of-IsSpaced (for_indexes database table) =
    is_spaced_sound (pieces_of (for_indexes database table)) refl
pieces_of-IsSpaced (for_indexes_columns database index) =
    is_spaced_sound (pieces_of (for_indexes_columns database index)) refl
pieces_of-IsSpaced (for_primary_key_column table) =
    is_spaced_sound (pieces_of (for_primary_key_column table)) refl
pieces_of-IsSpaced (for_table_info database table) =
    is_spaced_sound (pieces_of (for_table_info database table)) refl
pieces_of-IsSpaced (for_views database) = is_spaced_sound (pieces_of (for_views database)) refl
pieces_of-IsSpaced (for_view_info database view) =
    is_spaced_sound (pieces_of (for_view_info database view)) refl
pieces_of-IsSpaced (for_triggers database) =
    is_spaced_sound (pieces_of (for_triggers database)) refl
pieces_of-IsSpaced (for_trigger_info database trigger) =
    is_spaced_sound (pieces_of (for_trigger_info database trigger)) refl
pieces_of-IsSpaced (for_create_statement_table database object) =
    is_spaced_sound (pieces_of (for_create_statement_table database object)) refl
pieces_of-IsSpaced (for_create_statement_view database object) =
    is_spaced_sound (pieces_of (for_create_statement_view database object)) refl
pieces_of-IsSpaced (for_create_statement_trigger database object) =
    is_spaced_sound (pieces_of (for_create_statement_trigger database object)) refl
pieces_of-IsSpaced (for_create_statement_index database object) =
    is_spaced_sound (pieces_of (for_create_statement_index database object)) refl
pieces_of-IsSpaced for_global_variables = is_spaced_sound (pieces_of for_global_variables) refl
pieces_of-IsSpaced (for_row_ids database table column limit offset) = (
  refl,
  (
    tt,
    (
      refl,
      (
        tt,
        (
          refl,
          (
            tt,
            (
              refl,
              (tt, (refl, (is_clean-to_string limit, (refl, (is_clean-to_string offset, tt))))),
            ),
          ),
        ),
      ),
    ),
  ),
)
pieces_of-IsSpaced (for_row_count database table) =
    is_spaced_sound (pieces_of (for_row_count database table)) refl

pub lex-sqlite_sql :
    (s : Statement) → lex standard outside (sql_of s) ≡ some (tokens_of reads (pieces_of s))
lex-sqlite_sql s =
    ap (lex standard outside) (sql_of-text_of s)
    ∙ lex-text_of reads (pieces_of s) (pieces_of-IsSpaced s)
