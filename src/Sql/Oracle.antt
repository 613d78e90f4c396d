-- ===== src/Sql/Oracle.antt =====
-- src/oracle/OracleFormatConverter.cpp: the statements for Oracle.
use sql_fuse.Base.{Bool, Text, [], arith, length, refl, some, true, ◌∷◌, ◌≡◌}
use sql_fuse.Csv.Types.{SqlValue, RowData}
use sql_fuse.Sql.Statements
use sql_fuse.Sql.Statements.{Escaping, literal}
use sql_fuse.Sql.Escapes.{each_char, double, escape_dotted}
use sql_fuse.Sql.Lexer.{standard, outside, lex, text_kind}
use sql_fuse.Sql.Quoting.{double-Stands, lex-single}
use sql_fuse.Sql.Names.{qualified, lex-escape_dotted}
use sql_fuse.Sql.Pieces.{Reads, tokens_of}
use sql_fuse.Sql.Meaning.{
  insert_pieces, update_pieces, delete_pieces, lex-build_insert, lex-build_update, lex-build_delete,
}

unfoldable pub escape_identifier : Text → Text
unfolding escape_dotted
escape_identifier identifier = escape_dotted b'"' (length identifier) identifier

unfoldable pub escape_sql : Text → Text
unfolding each_char
escape_sql value = each_char (double b'\'') value

abbrev pub escaping : Escaping
escaping = record { escape_identifier = escape_identifier; escape_sql = escape_sql }

unfoldable pub build_insert : Text → RowData → Bool → Text
unfolding Statements.build_insert
build_insert = Statements.build_insert escaping

unfoldable pub build_update : Text → RowData → Text → Text → Bool → Text
unfolding Statements.build_update
build_update = Statements.build_update escaping

unfoldable pub build_delete : Text → Text → Text → Bool → Text
unfolding Statements.build_delete
build_delete = Statements.build_delete escaping

-- How the database reads what the class escapes.
abbrev pub reads : Reads standard escaping
unfolding escape_identifier escape_sql literal
reads = record {
  names = qualified [];
  texts = λ value. value;
  lex-escape_identifier = λ identifier rest h.
      lex-escape_dotted standard (length identifier) identifier rest (omega arith) h;
  lex-literal = λ value rest h.
      lex-single standard (double b'\'') value rest (double-Stands standard text_kind (λ c. refl))
        h;
}

-- Oracle reads the statements built from a row that is not empty, with escaping, as intended:
-- each value is one token with exactly its bytes, each identifier is the names between its dots,
-- and the rest is the words of the statement.
lex-oracle_statements :
    (table col : Text) (val : SqlValue) (row : RowData) (key value : Text)
    → (lex standard outside (build_insert table ((col, val) ∷ row) true)
        ≡ some (tokens_of reads (insert_pieces table ((col, val) ∷ row))))
      × (lex standard outside (build_update table ((col, val) ∷ row) key value true)
          ≡ some (tokens_of reads (update_pieces table ((col, val) ∷ row) key value)))
      × (lex standard outside (build_delete table key value true)
          ≡ some (tokens_of reads (delete_pieces table key value)))
unfolding build_insert build_update build_delete
lex-oracle_statements table col val row key value = (
  lex-build_insert reads table col val row,
  lex-build_update reads table col val row key value,
  lex-build_delete reads table key value,
)
