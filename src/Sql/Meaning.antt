-- ===== src/Sql/Meaning.antt =====
-- The statements of `buildInsert`, `buildUpdate` and `buildDelete` as the database reads them.
use sql_fuse.Base.{
  Bool, Bool-cases, List, Text, [], ap, append-nil, append_assoc, codes, false, if◌then◌else◌, inl,
  inr, refl, some, text_eq, true, ◌++◌, ◌∙◌, ◌∷◌, ◌≡◌,
}
use sql_fuse.Csv.Types.{SqlValue, RowData}
use sql_fuse.Sql.Statements.{
  Escaping, value_text, insert_loop, build_insert, update_loop, build_update, build_delete,
}
use sql_fuse.Sql.Lexer.{Lexicon, outside, lex}
use sql_fuse.Sql.Pieces.{
  Reads, Piece, word, identifier, value, Follows, IsSpaced, text_of, tokens_of, lex-text_of,
}

abbrev pub comma : Bool → List Piece
comma first = if first then [] else word (codes ", ") ∷ []

-- The columns of a row, and its values, with commas between them.
abbrev pub columns : Bool → RowData → List Piece
columns first [] = []
columns first ((col, val) ∷ row) = comma first ++ identifier col ∷ columns false row

abbrev pub values : Bool → RowData → List Piece
values first [] = []
values first ((col, val) ∷ row) = comma first ++ value val ∷ values false row

-- The assignments of a row, without the key's.
abbrev pub assignments : Text → Bool → RowData → List Piece
assignments key first [] = []
assignments key first ((col, val) ∷ row) =
    if text_eq col key
    then assignments key first row
    else comma first ++ identifier col ∷ word (codes " = ") ∷ value val ∷ assignments key false row

abbrev pub where_key : Text → Text → List Piece
where_key key v = word (codes " WHERE ") ∷ identifier key ∷ word (codes " = ") ∷ value (some v) ∷ []

abbrev pub insert_pieces : Text → RowData → List Piece
insert_pieces table row =
    word (codes "INSERT INTO ")
    ∷ identifier table
    ∷ word (codes " (")
    ∷ (columns true row
        ++ word (codes ")") ∷ word (codes " VALUES (") ∷ (values true row ++ word (codes ")") ∷ []))

abbrev pub update_pieces : Text → RowData → Text → Text → List Piece
update_pieces table row key v =
    word (codes "UPDATE ")
    ∷ identifier table
    ∷ word (codes " SET ")
    ∷ (assignments key true row ++ where_key key v)

abbrev pub delete_pieces : Text → Text → Text → List Piece
delete_pieces table key v = word (codes "DELETE FROM ") ∷ identifier table ∷ where_key key v

pub text_of-append :
    (e : Escaping) (ps qs : List Piece) → text_of e (ps ++ qs) ≡ text_of e ps ++ text_of e qs
text_of-append e [] qs = refl
text_of-append e (word s ∷ ps) qs = simp (text_of-append e ps qs, append_assoc)
text_of-append e (identifier i ∷ ps) qs = simp (text_of-append e ps qs, append_assoc)
text_of-append e (value v ∷ ps) qs = simp (text_of-append e ps qs, append_assoc)

insert_loop-text_of :
    (e : Escaping) (first : Bool) (row : RowData) (sql vals : Text)
    → insert_loop e true first row sql vals
      ≡ (sql ++ text_of e (columns first row), vals ++ text_of e (values first row))
unfolding insert_loop
insert_loop-text_of e first [] sql vals = simp append-nil
insert_loop-text_of e true ((col, val) ∷ row) sql vals =
    insert_loop-text_of e false row _ _ ∙ simp append_assoc
insert_loop-text_of e false ((col, val) ∷ row) sql vals =
    insert_loop-text_of e false row _ _ ∙ simp append_assoc

pub build_insert-text_of :
    (e : Escaping) (table : Text) (col : Text) (val : SqlValue) (row : RowData)
    → build_insert e table ((col, val) ∷ row) true
      ≡ text_of e (insert_pieces table ((col, val) ∷ row))
unfolding build_insert
build_insert-text_of e table col val row =
    simp (insert_loop-text_of e, text_of-append e, append_assoc)

update_loop-text_of :
    (e : Escaping) (key : Text) (first : Bool) (row : RowData)
    → update_loop e true key first row ≡ text_of e (assignments key first row)
unfolding update_loop
update_loop-text_of e key first [] = refl
update_loop-text_of e key true ((col, val) ∷ row) = elim (Bool-cases (text_eq col key)) [
  | inl h ↦ rw h (update_loop-text_of e key true row)
  | inr h ↦ rw h (rw (update_loop-text_of e key false row) refl)
]
update_loop-text_of e key false ((col, val) ∷ row) = elim (Bool-cases (text_eq col key)) [
  | inl h ↦ rw h (update_loop-text_of e key false row)
  | inr h ↦ rw h (rw (update_loop-text_of e key false row) refl)
]

pub build_update-text_of :
    (e : Escaping) (table : Text) (col : Text) (val : SqlValue) (row : RowData) (key v : Text)
    → build_update e table ((col, val) ∷ row) key v true
      ≡ text_of e (update_pieces table ((col, val) ∷ row) key v)
unfolding build_update value_text
build_update-text_of e table col val row key v =
    simp (update_loop-text_of e, text_of-append e, append_assoc, append-nil)

pub build_delete-text_of :
    (e : Escaping) (table key v : Text)
    → build_delete e table key v true ≡ text_of e (delete_pieces table key v)
unfolding build_delete value_text
build_delete-text_of e table key v = simp (append_assoc, append-nil)

pub columns-IsSpaced :
    (row : RowData) (ps : List Piece)
    → Follows ps
    → IsSpaced ps
    → Follows (columns false row ++ ps) × IsSpaced (columns false row ++ ps)
columns-IsSpaced [] ps f k = (f, k)
columns-IsSpaced ((col, val) ∷ row) ps f k = (tt, (refl, columns-IsSpaced row ps f k))

pub values-IsSpaced :
    (row : RowData) (ps : List Piece)
    → Follows ps
    → IsSpaced ps
    → Follows (values false row ++ ps) × IsSpaced (values false row ++ ps)
values-IsSpaced [] ps f k = (f, k)
values-IsSpaced ((col, val) ∷ row) ps f k = (tt, (refl, values-IsSpaced row ps f k))

pub assignments-IsSpaced :
    (key : Text) (first : Bool) (row : RowData) (ps : List Piece)
    → Follows ps
    → IsSpaced ps
    → (first ≡ false → Follows (assignments key first row ++ ps))
      × IsSpaced (assignments key first row ++ ps)
assignments-IsSpaced key first [] ps f k = (λ e. f, k)
assignments-IsSpaced key true ((col, val) ∷ row) ps f k = elim (Bool-cases (text_eq col key)) [
  | inl h ↦ rw h (assignments-IsSpaced key true row ps f k)
  | inr h ↦
      let (g, s) = assignments-IsSpaced key false row ps f k in
      rw h (λ e. absurd cc, (tt, (refl, (g refl, s))))
]
assignments-IsSpaced key false ((col, val) ∷ row) ps f k = elim (Bool-cases (text_eq col key)) [
  | inl h ↦ rw h (assignments-IsSpaced key false row ps f k)
  | inr h ↦
      let (g, s) = assignments-IsSpaced key false row ps f k in
      rw h (λ e. tt, (refl, (tt, (refl, (g refl, s)))))
]

module _ {l : Lexicon} {e : Escaping} (r : Reads l e) where
  pub lex-build_insert :
      (table col : Text) (val : SqlValue) (row : RowData)
      → lex l outside (build_insert e table ((col, val) ∷ row) true)
        ≡ some (tokens_of r (insert_pieces table ((col, val) ∷ row)))
  lex-build_insert table col val row =
      let (g, s) = values-IsSpaced row (word (codes ")") ∷ []) tt (refl, tt) in
      let (f, k) =
        columns-IsSpaced row
          (word (codes ")")
            ∷ word (codes " VALUES (")
            ∷ (values true ((col, val) ∷ row) ++ word (codes ")") ∷ []))
          tt (refl, (refl, (g, s))) in
      ap (lex l outside) (build_insert-text_of e table col val row)
      ∙ lex-text_of r (insert_pieces table ((col, val) ∷ row)) (refl, (tt, (refl, (f, k))))

  pub lex-build_update :
      (table col : Text) (val : SqlValue) (row : RowData) (key v : Text)
      → lex l outside (build_update e table ((col, val) ∷ row) key v true)
        ≡ some (tokens_of r (update_pieces table ((col, val) ∷ row) key v))
  lex-build_update table col val row key v =
      let (_, k) =
        assignments-IsSpaced key true ((col, val) ∷ row) (where_key key v) tt
          (refl, (tt, (refl, (tt, tt)))) in
      ap (lex l outside) (build_update-text_of e table col val row key v)
      ∙ lex-text_of r (update_pieces table ((col, val) ∷ row) key v) (refl, (tt, (refl, k)))

  pub lex-build_delete :
      (table key v : Text)
      → lex l outside (build_delete e table key v true)
        ≡ some (tokens_of r (delete_pieces table key v))
  lex-build_delete table key v =
      ap (lex l outside) (build_delete-text_of e table key v)
      ∙ lex-text_of r (delete_pieces table key v) (refl, (tt, (refl, (tt, (refl, (tt, tt))))))
