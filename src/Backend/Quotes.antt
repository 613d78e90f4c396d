-- ===== src/Backend/Quotes.antt =====
-- The statements of src/sqlite/SQLiteVirtualFile.cpp, which leaves names as they are between quotes, as
-- SQLite reads them.
use sql_fuse.Base.{
  Lacks, List, Text, [], ap, append-nil, append_assoc, codes, lacks, refl, some, true, ◌++◌, ◌∙◌,
  ◌∷◌, ◌≡◌,
}
use sql_fuse.Csv.Types.{RowData, SqlValue}
use sql_fuse.Router.Types.{ParsedPath}
use sql_fuse.Sql.Statements.{value_text, literal}
use sql_fuse.Sql.Lexer.{standard, outside, lex}
use sql_fuse.Sql.Pieces.{is_clean, Piece, word, IsSpaced, text_of, tokens_of, lex-text_of}
use sql_fuse.Sql.Meaning.{
  values, where_key, update_pieces, columns-IsSpaced, values-IsSpaced, assignments-IsSpaced,
}
use sql_fuse.Sql.Sqlite.{escaping, reads, escaping-IsWhole}
use sql_fuse.Sql.Sent.{c_str, c_str-text_of}
use sql_fuse.Sql.Whole.{
  RowLacks, PiecesLack, columns-Lack, values-Lack, assignments-Lack, where_key-Lack,
}
use sql_fuse.Backend.Sqlite.{check_row, dialect}
use sql_fuse.Backend.Spelled.{
  bare-Lacks, KeysLack, new_row_pieces, check_pieces, insert_with-text_of, update_with-text_of,
}

new_row_pieces-IsSpaced :
    (c : Text) (v : SqlValue) (row : RowData) (verb table : Text)
    → is_clean verb ≡ true
    → IsSpaced (new_row_pieces verb table ((c, v) ∷ row))
new_row_pieces-IsSpaced c v row verb table clean =
    let (g, s) = values-IsSpaced row (word (codes ")") ∷ []) tt (refl, tt) in
    let (f, k) =
      columns-IsSpaced row
        (word (codes ") VALUES (") ∷ (values true ((c, v) ∷ row) ++ word (codes ")") ∷ [])) tt
        (refl, (g, s)) in
    (clean, (tt, (refl, (f, k))))

update_pieces-IsSpaced :
    (table : Text) (row : RowData) (key id : Text) → IsSpaced (update_pieces table row key id)
update_pieces-IsSpaced table row key id = (
  refl,
  (
    tt,
    (
      refl,
      (assignments-IsSpaced key true row (where_key key id) tt (refl, (tt, (refl, (tt, tt))))).1,
    ),
  ),
)

check_row-text_of :
    (path : ParsedPath) (key : Text)
    → Lacks b'"' path.object_name
    → Lacks b'"' key
    → check_row path key ≡ text_of escaping (check_pieces path.object_name key path.row_id)
unfolding check_row value_text literal
check_row-text_of path key n k =
    rw (bare-Lacks path.object_name n, bare-Lacks key k) (simp (append_assoc, append-nil))

new_row_pieces-Lack :
    (verb table : Text) (row : RowData)
    → lacks 0 verb ≡ true
    → Lacks 0 table
    → RowLacks row
    → PiecesLack (new_row_pieces verb table row)
new_row_pieces-Lack verb table row v n h =
    (v, (n, (refl, columns-Lack true row _ h (refl, values-Lack true row _ h (refl, tt)))))

-- A statement that is its pieces, without zero bytes, is read as they are meant.
lex_pieces :
    (sql : Text) (ps : List Piece)
    → sql ≡ text_of escaping ps
    → IsSpaced ps
    → PiecesLack ps
    → lex standard outside (c_str sql) ≡ some (tokens_of reads ps)
lex_pieces sql ps same spaced whole =
    ap (lex standard outside) (c_str-text_of escaping escaping-IsWhole sql ps same whole ∙ same)
    ∙ lex-text_of reads ps spaced

-- SQLite reads the statements of its write handlers, which it is given up to the first zero
-- byte, for a row that is not empty, as intended, if the names of the table, of the columns and
-- of the key have no double quotes and neither they nor the values and the row id have zero
-- bytes: each name and each value is one token with exactly its bytes, and the rest is the words
-- of the statement.
pub lex-sqlite_rows :
    (path : ParsedPath) (c : Text) (v : SqlValue) (row : RowData) (key : Text)
    → Lacks b'"' path.object_name
    → KeysLack ((c, v) ∷ row)
    → Lacks b'"' key
    → Lacks 0 path.object_name
    → RowLacks ((c, v) ∷ row)
    → Lacks 0 key
    → Lacks 0 path.row_id
    → (lex standard outside (c_str (dialect.insert_row path ((c, v) ∷ row)))
        ≡ some (
            tokens_of reads
              (new_row_pieces (codes "INSERT OR REPLACE INTO ") path.object_name ((c, v) ∷ row))))
      × (lex standard outside (c_str (dialect.new_row path ((c, v) ∷ row)))
          ≡ some (
              tokens_of reads
                (new_row_pieces (codes "INSERT INTO ") path.object_name ((c, v) ∷ row))))
      × (lex standard outside (c_str (dialect.update_row path ((c, v) ∷ row) key))
          ≡ some (tokens_of reads (update_pieces path.object_name ((c, v) ∷ row) key path.row_id)))
      × (lex standard outside (c_str (dialect.check_row path key))
          ≡ some (tokens_of reads (check_pieces path.object_name key path.row_id)))
unfolding dialect
lex-sqlite_rows path c v row key n h k table_whole row_whole key_whole id_whole =
    let table = path.object_name in
    let cells : RowData = (c, v) ∷ row in
    let replaced = codes "INSERT OR REPLACE INTO " in
    let added = codes "INSERT INTO " in
    let found = where_key-Lack key path.row_id key_whole id_whole in
    (
      lex_pieces _ (new_row_pieces replaced table cells)
          (insert_with-text_of replaced table cells n h)
          (new_row_pieces-IsSpaced c v row replaced table refl)
          (new_row_pieces-Lack replaced table cells refl table_whole row_whole),
      lex_pieces _ (new_row_pieces added table cells) (insert_with-text_of added table cells n h)
          (new_row_pieces-IsSpaced c v row added table refl)
          (new_row_pieces-Lack added table cells refl table_whole row_whole),
      lex_pieces _ (update_pieces table cells key path.row_id)
          (update_with-text_of table cells key path.row_id n h k)
          (update_pieces-IsSpaced table cells key path.row_id)
          (refl, (table_whole, (refl, assignments-Lack key true cells _ row_whole found))),
      lex_pieces _ (check_pieces table key path.row_id) (check_row-text_of path key n k)
          (refl, (tt, (refl, (tt, (refl, (tt, tt)))))) (refl, (table_whole, found)),
    )
