-- ===== src/Backend/Spelled.antt =====
-- The statements of src/sqlite/SQLiteVirtualFile.cpp as pieces, where no name has quotes.
use sql_fuse.Base.{
  ==-ne, Bool, Bool-cases, Lacks, List, Text, [], append-nil, append_assoc, codes, false, inl, inr,
  none, refl, some, text_eq, true, ℕ, ◌++◌, ◌∷◌, ◌≡◌,
}
use sql_fuse.Csv.Types.{RowData, SqlValue}
use sql_fuse.Sql.Statements.{value_text, literal}
use sql_fuse.Sql.Escapes.{each_char, double, quoted}
use sql_fuse.Sql.Pieces.{Piece, word, identifier, text_of}
use sql_fuse.Sql.Meaning.{columns, values, assignments, where_key, update_pieces, text_of-append}
use sql_fuse.Sql.Sqlite
use sql_fuse.Sql.Sqlite.{escaping}
use sql_fuse.Backend.Types.{bare}
use sql_fuse.Backend.Sqlite.{
  column_list, value_of, value_list, insert_with, assignment_list, update_with,
}

each_char-Lacks : (q : ℕ) (s : Text) → Lacks q s → each_char (double q) s ≡ s
unfolding each_char
each_char-Lacks q [] h = refl
each_char-Lacks q (c ∷ s) (n, h) = rw (==-ne c q n, each_char-Lacks q s h) refl

pub bare-Lacks : (s : Text) → Lacks b'"' s → bare s ≡ Sqlite.escape_identifier s
unfolding bare Sqlite.escape_identifier quoted
bare-Lacks s h = rw (each_char-Lacks b'"' s h) refl

-- The names of the columns hold no quote.
abbrev pub KeysLack : RowData → Type 0
KeysLack [] = Unit
KeysLack ((key, v) ∷ row) = Lacks b'"' key × KeysLack row

value_of-value_text : (v : SqlValue) → value_of v ≡ value_text escaping true v
unfolding value_of value_text literal
value_of-value_text none = refl
value_of-value_text (some v) = refl

column_list-text_of :
    (first : Bool) (row : RowData)
    → KeysLack row
    → column_list first row ≡ text_of escaping (columns first row)
unfolding column_list
column_list-text_of first [] h = refl
column_list-text_of true ((key, v) ∷ row) (n, h) =
    rw (bare-Lacks key n, column_list-text_of false row h) refl
column_list-text_of false ((key, v) ∷ row) (n, h) =
    rw (bare-Lacks key n, column_list-text_of false row h) refl

value_list-text_of :
    (first : Bool) (row : RowData) → value_list first row ≡ text_of escaping (values first row)
unfolding value_list
value_list-text_of first [] = refl
value_list-text_of true ((key, v) ∷ row) =
    rw (value_of-value_text v, value_list-text_of false row) refl
value_list-text_of false ((key, v) ∷ row) =
    rw (value_of-value_text v, value_list-text_of false row) refl

assignment_list-text_of :
    (key : Text) (first : Bool) (row : RowData)
    → KeysLack row
    → assignment_list key first row ≡ text_of escaping (assignments key first row)
unfolding assignment_list
assignment_list-text_of key first [] h = refl
assignment_list-text_of key true ((c, v) ∷ row) (n, h) = elim (Bool-cases (text_eq c key)) [
  | inl e ↦ rw e (assignment_list-text_of key true row h)
  | inr e ↦
      rw e
        (rw (bare-Lacks c n, value_of-value_text v, assignment_list-text_of key false row h) refl)
]
assignment_list-text_of key false ((c, v) ∷ row) (n, h) = elim (Bool-cases (text_eq c key)) [
  | inl e ↦ rw e (assignment_list-text_of key false row h)
  | inr e ↦
      rw e
        (rw (bare-Lacks c n, value_of-value_text v, assignment_list-text_of key false row h) refl)
]

abbrev pub new_row_pieces : Text → Text → RowData → List Piece
new_row_pieces verb table row =
    word verb
    ∷ identifier table
    ∷ word (codes " (")
    ∷ (columns true row ++ word (codes ") VALUES (") ∷ (values true row ++ word (codes ")") ∷ []))

abbrev pub check_pieces : Text → Text → Text → List Piece
check_pieces table key id = word (codes "SELECT 1 FROM ") ∷ identifier table ∷ where_key key id

pub insert_with-text_of :
    (verb table : Text) (row : RowData)
    → Lacks b'"' table
    → KeysLack row
    → insert_with verb table row ≡ text_of escaping (new_row_pieces verb table row)
unfolding insert_with
insert_with-text_of verb table row n h = simp (
  bare-Lacks table n,
  column_list-text_of true row h,
  value_list-text_of true row,
  text_of-append escaping,
)

pub update_with-text_of :
    (table : Text) (row : RowData) (key id : Text)
    → Lacks b'"' table
    → KeysLack row
    → Lacks b'"' key
    → update_with table row key id ≡ text_of escaping (update_pieces table row key id)
unfolding update_with value_text literal
update_with-text_of table row key id n h k = simp (
  bare-Lacks table n,
  assignment_list-text_of key true row h,
  bare-Lacks key k,
  text_of-append escaping,
  append_assoc,
  append-nil,
)
