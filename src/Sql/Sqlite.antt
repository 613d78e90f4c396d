-- ===== src/Sql/Sqlite.antt =====
-- src/sqlite/SQLiteFormatConverter.cpp: the statements for SQLite.
use sql_fuse.Base.{Bool, Lacks, Text, [], arith, refl, some, true, ◌∷◌, ◌≡◌}
use sql_fuse.Csv.Types.{SqlValue, RowData}
use sql_fuse.Sql.Statements
use sql_fuse.Sql.Statements.{Escaping, literal}
use sql_fuse.Sql.Escapes.{each_char, double, quoted}
use sql_fuse.Sql.Lexer.{standard, name, outside, lex, text_kind}
use sql_fuse.Sql.Quoting.{double-Stands, lex-single}
use sql_fuse.Sql.Names.{lex-quoted}
use sql_fuse.Sql.Pieces.{Reads, tokens_of}
use sql_fuse.Sql.Meaning.{insert_pieces, update_pieces, delete_pieces}
use sql_fuse.Sql.Sent.{c_str, lex-sent_insert, lex-sent_update, lex-sent_delete}
use sql_fuse.Sql.Whole.{RowLacks, IsWhole, each_char-whole, double-whole, quoted-whole}

unfoldable pub escape_identifier : Text → Text
unfolding quoted
escape_identifier identifier = quoted b'"' identifier

unfoldable pub escape_sql : Text → Text
unfolding each_char
escape_sql value = each_char (double b'\'') value

abbrev pub escaping : Escaping
escaping = record { escape_identifier = escape_identifier; escape_sql = escape_sql }

unfoldable pub build_insert : Text → RowData → Bool → Text
unfolding Statements.build_insert
build_insert = Statements.build_insert escaping

unfoldable pub build_update : Text → RowData → Text → Text → Bool → Text
unfolding Statements.build_update
build_update = Statements.build_update escaping

unfoldable pub build_delete : Text → Text → Text → Bool → Text
unfolding Statements.build_delete
build_delete = Statements.build_delete escaping

-- How the database reads what the class escapes.
abbrev pub reads : Reads standard escaping
unfolding escape_identifier escape_sql literal
reads = record {
  names = λ identifier. name identifier ∷ [];
  texts = λ value. value;
  lex-escape_identifier = λ identifier rest h. lex-quoted standard identifier rest h;
  lex-literal = λ value rest h.
      lex-single standard (double b'\'') value rest (double-Stands standard text_kind (λ c. refl))
        h;
}

pub escaping-IsWhole : IsWhole escaping
unfolding escape_identifier escape_sql
escaping-IsWhole = record {
  names = λ s h. quoted-whole b'"' s (λ e. ground (arith, e)) h;
  texts = λ s h. each_char-whole (double b'\'') s (double-whole b'\'') h;
}

-- SQLite reads the statements built from a row that is not empty, with escaping, which it is
-- given up to the first zero byte, as intended, if no name and no value has a zero byte: each
-- name and each value is one token with exactly its bytes, and the rest is the words of the
-- statement.
pub lex-sqlite_statements :
    (table col : Text) (val : SqlValue) (row : RowData) (key value : Text)
    → Lacks 0 table
    → RowLacks ((col, val) ∷ row)
    → Lacks 0 key
    → Lacks 0 value
    → (lex standard outside (c_str (build_insert table ((col, val) ∷ row) true))
        ≡ some (tokens_of reads (insert_pieces table ((col, val) ∷ row))))
      × (lex standard outside (c_str (build_update table ((col, val) ∷ row) key value true))
          ≡ some (tokens_of reads (update_pieces table ((col, val) ∷ row) key value)))
      × (lex standard outside (c_str (build_delete table key value true))
          ≡ some (tokens_of reads (delete_pieces table key value)))
unfolding build_insert build_update build_delete
lex-sqlite_statements table col val row key value n h m w = (
  lex-sent_insert reads escaping-IsWhole table col val row n h,
  lex-sent_update reads escaping-IsWhole table col val row key value n h m w,
  lex-sent_delete reads escaping-IsWhole table key value n m w,
)
