-- ===== src/Sql/Postgresql.antt =====
-- src/postgresql/PostgreSQLFormatConverter.cpp: the statements for PostgreSQL.
use sql_fuse.Base.{
  Bool, Lacks, Text, [], append_assoc, arith, by_if, codes, if◌then◌else◌, lacks_sound, length,
  refl, some, true, ℕ, ◌++◌, ◌==◌, ◌∙◌, ◌∷◌, ◌≡◌, ◌≢◌,
}
use sql_fuse.Csv.Types.{SqlValue, RowData}
use sql_fuse.Sql.Statements
use sql_fuse.Sql.Statements.{Escaping, literal}
use sql_fuse.Sql.Escapes.{each_char, double, escape_dotted}
use sql_fuse.Sql.Lexer.{standard, outside, lex, text_kind, inside}
use sql_fuse.Sql.Quoting.{Stands, lex-single_as, prepend-nil, prepend-nil_twice, by_byte}
use sql_fuse.Sql.Names.{qualified, lex-escape_dotted}
use sql_fuse.Sql.Pieces.{Reads, tokens_of}
use sql_fuse.Sql.Meaning.{insert_pieces, update_pieces, delete_pieces}
use sql_fuse.Sql.Sent.{c_str, lex-sent_insert, lex-sent_update, lex-sent_delete}
use sql_fuse.Sql.Whole.{RowLacks, IsWhole, each_char-whole, escape_dotted-whole}

unfoldable pub escape_identifier : Text → Text
unfolding escape_dotted
escape_identifier identifier = escape_dotted b'"' (length identifier) identifier

abbrev pub postgresql_char : ℕ → Text
postgresql_char c = if c == b'\'' then codes "''" else if c == b'\\' then codes "\\\\" else c ∷ []

unfoldable pub escape_sql : Text → Text
unfolding each_char
escape_sql value = each_char postgresql_char value

abbrev pub escaping : Escaping
escaping = record { escape_identifier = escape_identifier; escape_sql = escape_sql }

unfoldable pub build_insert : Text → RowData → Bool → Text
unfolding Statements.build_insert
build_insert = Statements.build_insert escaping

unfoldable pub build_update : Text → RowData → Text → Text → Bool → Text
unfolding Statements.build_update
build_update = Statements.build_update escaping

unfoldable pub build_delete : Text → Text → Text → Bool → Text
unfolding Statements.build_delete
build_delete = Statements.build_delete escaping

-- PostgreSQL reads both backslashes that are written for one.
pub postgresql_char-Stands : Stands standard text_kind postgresql_char (double b'\\')
unfolding lex
postgresql_char-Stands c s rest =
    let P : ℕ → Type 0 = λ c.
      lex standard (inside text_kind s) (postgresql_char c ++ rest)
      ≡ lex standard (inside text_kind (s ++ double b'\\' c)) rest in
    by_byte P b'\'' c (prepend-nil_twice _) (λ a.
      by_byte P b'\\' c (prepend-nil_twice _ ∙ rw append_assoc refl)
        (λ b. rw (a, b) (rw a (prepend-nil _))))

-- How the database reads what the class escapes.
abbrev pub reads : Reads standard escaping
unfolding escape_identifier escape_sql literal
reads = record {
  names = qualified [];
  texts = each_char (double b'\\');
  lex-escape_identifier = λ identifier rest h.
      lex-escape_dotted standard (length identifier) identifier rest (omega arith) h;
  lex-literal = λ value rest h.
      lex-single_as standard postgresql_char (double b'\\') value rest postgresql_char-Stands h;
}

postgresql_char-whole : (c : ℕ) → c ≢ 0 → Lacks 0 (postgresql_char c)
postgresql_char-whole c n =
    by_if (Lacks 0) (c == b'\'') (λ _. lacks_sound 0 (codes "''") refl)
      (λ _. by_if (Lacks 0) (c == b'\\') (λ _. lacks_sound 0 (codes "\\\\") refl) (λ _. (n, tt)))

escaping-IsWhole : IsWhole escaping
unfolding escape_identifier escape_sql
escaping-IsWhole = record {
  names = λ s h. escape_dotted-whole b'"' (length s) s (λ e. ground (arith, e)) h;
  texts = λ s h. each_char-whole postgresql_char s postgresql_char-whole h;
}

-- PostgreSQL, whose strings are standard, reads the statements built from a row that is not
-- empty, with escaping, which it is given up to the first zero byte, if no name and no value has
-- a zero byte: each value is one token with its bytes, but every backslash is there twice, each
-- identifier is the names between its dots, and the rest is the words of the statement.
pub lex-postgresql_statements :
    (table col : Text) (val : SqlValue) (row : RowData) (key value : Text)
    → Lacks 0 table
    → RowLacks ((col, val) ∷ row)
    → Lacks 0 key
    → Lacks 0 value
    → (lex standard outside (c_str (build_insert table ((col, val) ∷ row) true))
        ≡ some (tokens_of reads (insert_pieces table ((col, val) ∷ row))))
      × (lex standard outside (c_str (build_update table ((col, val) ∷ row) key value true))
          ≡ some (tokens_of reads (update_pieces table ((col, val) ∷ row) key value)))
      × (lex standard outside (c_str (build_delete table key value true))
          ≡ some (tokens_of reads (delete_pieces table key value)))
unfolding build_insert build_update build_delete
lex-postgresql_statements table col val row key value n h m w = (
  lex-sent_insert reads escaping-IsWhole table col val row n h,
  lex-sent_update reads escaping-IsWhole table col val row key value n h m w,
  lex-sent_delete reads escaping-IsWhole table key value n m w,
)
