-- ===== src/Sql/Mysql.antt =====
-- src/mysql/MySQLFormatConverter.cpp: the statements for MySQL.
use sql_fuse.Base.{
  Bool, Text, [], arith, codes, if◌then◌else◌, length, some, true, ℕ, ◌++◌, ◌==◌, ◌∷◌, ◌≡◌,
}
use sql_fuse.Csv.Types.{SqlValue, RowData}
use sql_fuse.Sql.Statements
use sql_fuse.Sql.Statements.{Escaping, literal}
use sql_fuse.Sql.Escapes.{each_char, escape_dotted}
use sql_fuse.Sql.Lexer.{backslashes, outside, lex, text_kind, inside}
use sql_fuse.Sql.Quoting.{Stands, lex-single, prepend-nil, prepend-nil_twice, by_byte}
use sql_fuse.Sql.Names.{qualified, lex-escape_dotted}
use sql_fuse.Sql.Pieces.{Reads, tokens_of}
use sql_fuse.Sql.Meaning.{
  insert_pieces, update_pieces, delete_pieces, lex-build_insert, lex-build_update, lex-build_delete,
}

unfoldable pub escape_identifier : Text → Text
unfolding escape_dotted
escape_identifier identifier = escape_dotted b'`' (length identifier) identifier

abbrev pub mysql_char : ℕ → Text
mysql_char c =
    if c == 0
    then codes "\\0"
    else if c == b'\n'
    then codes "\\n"
    else if c == b'\r'
    then codes "\\r"
    else if c == b'\\'
    then codes "\\\\"
    else if c == b'\''
    then codes "\\'"
    else if c == b'"'
    then codes "\\\""
    else if c == 0x1a
    then codes "\\Z"
    else c ∷ []

unfoldable pub escape_sql : Text → Text
unfolding each_char
escape_sql value = each_char mysql_char value

abbrev pub escaping : Escaping
escaping = record { escape_identifier = escape_identifier; escape_sql = escape_sql }

unfoldable pub build_insert : Text → RowData → Bool → Text
unfolding Statements.build_insert
build_insert = Statements.build_insert escaping

unfoldable pub build_update : Text → RowData → Text → Text → Bool → Text
unfolding Statements.build_update
build_update = Statements.build_update escaping

unfoldable pub build_delete : Text → Text → Text → Bool → Text
unfolding Statements.build_delete
build_delete = Statements.build_delete escaping

pub mysql_char-Stands : Stands backslashes text_kind mysql_char (λ c. c ∷ [])
unfolding lex
mysql_char-Stands c s rest =
    let P : ℕ → Type 0 = λ c.
      lex backslashes (inside text_kind s) (mysql_char c ++ rest)
      ≡ lex backslashes (inside text_kind (s ++ c ∷ [])) rest in
    by_byte P 0 c (prepend-nil_twice _) (λ a. by_byte P b'\n' c (prepend-nil_twice _) (λ b.
      by_byte P b'\r' c (prepend-nil_twice _) (λ d. by_byte P b'\\' c (prepend-nil_twice _) (λ e.
        by_byte P b'\'' c (prepend-nil_twice _) (λ f. by_byte P b'"' c (prepend-nil_twice _) (λ g.
          by_byte P 0x1a c (prepend-nil_twice _)
            (λ h. rw (a, b, d, e, f, g, h) (rw (f, e) (prepend-nil _)))))))))

-- How the database reads what the class escapes.
abbrev pub reads : Reads backslashes escaping
unfolding escape_identifier escape_sql literal
reads = record {
  names = qualified [];
  texts = λ value. value;
  lex-escape_identifier = λ identifier rest h.
      lex-escape_dotted backslashes (length identifier) identifier rest (omega arith) h;
  lex-literal = λ value rest h. lex-single backslashes mysql_char value rest mysql_char-Stands h;
}

-- MySQL reads the statements built from a row that is not empty, with escaping, as intended:
-- each value is one token with exactly its bytes, each identifier is the names between its dots,
-- and the rest is the words of the statement.
pub lex-mysql_statements :
    (table col : Text) (val : SqlValue) (row : RowData) (key value : Text)
    → (lex backslashes outside (build_insert table ((col, val) ∷ row) true)
        ≡ some (tokens_of reads (insert_pieces table ((col, val) ∷ row))))
      × (lex backslashes outside (build_update table ((col, val) ∷ row) key value true)
          ≡ some (tokens_of reads (update_pieces table ((col, val) ∷ row) key value)))
      × (lex backslashes outside (build_delete table key value true)
          ≡ some (tokens_of reads (delete_pieces table key value)))
unfolding build_insert build_update build_delete
lex-mysql_statements table col val row key value = (
  lex-build_insert reads table col val row,
  lex-build_update reads table col val row key value,
  lex-build_delete reads table key value,
)
