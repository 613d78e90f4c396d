-- ===== src/Sql/Sent.antt =====
-- The statements as SQLite and PostgreSQL are given them: src/sqlite/SQLiteConnection.cpp and
-- src/postgresql/PostgreSQLConnection.cpp hand over `sql.c_str()`, which ends at a zero byte.
use sql_fuse.Base.{
  ==-ne, Lacks, List, Text, [], ap, if◌then◌else◌, refl, some, subst, sym, true, ◌==◌, ◌∙◌, ◌∷◌,
  ◌≡◌,
}
use sql_fuse.Csv.Types.{SqlValue, RowData}
use sql_fuse.Sql.Statements.{Escaping, build_insert, build_update, build_delete}
use sql_fuse.Sql.Lexer.{Lexicon, outside, lex}
use sql_fuse.Sql.Pieces.{Reads, Piece, text_of, tokens_of}
use sql_fuse.Sql.Meaning.{
  insert_pieces, update_pieces, delete_pieces, build_insert-text_of, build_update-text_of,
  build_delete-text_of, lex-build_insert, lex-build_update, lex-build_delete,
}
use sql_fuse.Sql.Whole.{
  IsWhole, RowLacks, PiecesLack, text_of-whole, columns-Lack, values-Lack, assignments-Lack,
  where_key-Lack,
}

-- What a function of a client library reads of `sql.c_str()`.
unfoldable pub c_str : Text → Text
c_str [] = []
c_str (c ∷ sql) = let rest = c_str sql in if c == 0 then [] else c ∷ rest

pub c_str-Lacks : (sql : Text) → Lacks 0 sql → c_str sql ≡ sql
unfolding c_str
c_str-Lacks [] h = refl
c_str-Lacks (c ∷ sql) (n, h) = rw (==-ne c 0 n, c_str-Lacks sql h) refl

-- A statement that is made of pieces without zero bytes is given as it is.
pub c_str-text_of :
    (e : Escaping) (k : IsWhole e) (sql : Text) (ps : List Piece)
    → sql ≡ text_of e ps
    → PiecesLack ps
    → c_str sql ≡ sql
c_str-text_of e k sql ps same h =
    c_str-Lacks sql (subst (Lacks 0) (sym same) (text_of-whole e k ps h))

module _ {l : Lexicon} {e : Escaping} (r : Reads l e) (k : IsWhole e) where
  pub lex-sent_insert :
      (table col : Text) (val : SqlValue) (row : RowData)
      → Lacks 0 table
      → RowLacks ((col, val) ∷ row)
      → lex l outside (c_str (build_insert e table ((col, val) ∷ row) true))
        ≡ some (tokens_of r (insert_pieces table ((col, val) ∷ row)))
  lex-sent_insert table col val row n h =
      ap (lex l outside) (
        c_str-text_of e k _ (insert_pieces table ((col, val) ∷ row))
          (build_insert-text_of e table col val row)
          (
            refl,
            (
              n,
              (
                refl,
                columns-Lack true ((col, val) ∷ row) _ h
                    (refl, (refl, values-Lack true ((col, val) ∷ row) _ h (refl, tt))),
              ),
            ),
          ))
      ∙ lex-build_insert r table col val row

  pub lex-sent_update :
      (table col : Text) (val : SqlValue) (row : RowData) (key v : Text)
      → Lacks 0 table
      → RowLacks ((col, val) ∷ row)
      → Lacks 0 key
      → Lacks 0 v
      → lex l outside (c_str (build_update e table ((col, val) ∷ row) key v true))
        ≡ some (tokens_of r (update_pieces table ((col, val) ∷ row) key v))
  lex-sent_update table col val row key v n h m w =
      ap (lex l outside) (
        c_str-text_of e k _ (update_pieces table ((col, val) ∷ row) key v)
          (build_update-text_of e table col val row key v)
          (
            refl,
            (
              n,
              (refl, assignments-Lack key true ((col, val) ∷ row) _ h (where_key-Lack key v m w)),
            ),
          ))
      ∙ lex-build_update r table col val row key v

  pub lex-sent_delete :
      (table key v : Text)
      → Lacks 0 table
      → Lacks 0 key
      → Lacks 0 v
      → lex l outside (c_str (build_delete e table key v true))
        ≡ some (tokens_of r (delete_pieces table key v))
  lex-sent_delete table key v n m w =
      ap (lex l outside) (
        c_str-text_of e k _ (delete_pieces table key v) (build_delete-text_of e table key v)
          (refl, (n, where_key-Lack key v m w)))
      ∙ lex-build_delete r table key v
