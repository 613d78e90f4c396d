-- ===== src/Backend/Write.antt =====
-- `handleTableWrite` and `handleRowWrite`, whose bodies are the same in the four classes but for what a
-- dialect has.
use sql_fuse.Base.{
  Bool, List, Option, Text, [], codes, false, if◌then◌else◌, is_empty, leb, none, not, some, true,
  ◌&&◌, ◌++◌, ◌∷◌,
}
use sql_fuse.Csv.Types.{RowData, default_options}
use sql_fuse.Csv.Read.{parse_csv}
use sql_fuse.Router.Types.{ParsedPath, FileFormat}
use sql_fuse.File.Types.{Reply, ok, err, eio, einval, VirtualFile}
use sql_fuse.Backend.Types.{
  Event, executed, committed, DbError, Database, Attempt, gives, threw, Tools, Written, Dialect,
}

unfoldable pub finish_write : Dialect → List Event → Text → Written
finish_write d history last_error = record {
  history = if d.commits then history ++ committed ∷ [] else history;
  last_error = last_error;
  reply = ok tt;
}

unfoldable pub refused : Dialect → List Event → DbError → Written
refused d history e = record { history = history; last_error = e.message; reply = d.error_of e }

abbrev pub unless_refused : Dialect → List Event → Option DbError → Written → Written
unless_refused d history none next = next
unless_refused d history (some e) next = refused d history e

-- The loop over the rows: the first one that is refused ends it.
unfoldable pub insert_rows :
    Dialect → Database → ParsedPath → List RowData → List Event → Text → Written
insert_rows d db path [] history last_error = finish_write d history last_error
insert_rows d db path (row ∷ rows) history last_error =
    let sql = d.insert_row path row in
    unless_refused d history (db.refuses history sql)
      (insert_rows d db path rows (history ++ executed sql ∷ []) last_error)

-- The rows of the buffer, in a format that can be read back.
unfoldable pub rows_of : Tools → FileFormat → Text → Option (Attempt (List RowData))
unfolding parse_csv
rows_of tools FileFormat.csv buffer = some (gives (parse_csv default_options buffer))
rows_of tools FileFormat.json buffer = some (tools.parse_json buffer)
rows_of tools _ buffer = none

abbrev pub fails_with : List Event → Text → Reply (Unit {0}) → Written
fails_with history last_error reply = record {
  history = history;
  last_error = last_error;
  reply = reply;
}

abbrev pub no_pool : Dialect → List Event → Written
no_pool d history =
    fails_with history (codes "No " ++ (d.database_name ++ codes " connection pool")) (err eio)

-- What is done with the connection that `acquire` gives, unless it throws.
abbrev pub with_connection : List Event → Attempt Database → (Database → Written) → Written
with_connection history (threw what) then_do = fails_with history what (err einval)
with_connection history (gives db) then_do = then_do db

unfoldable pub write_rows :
    Dialect
    → Attempt Database
    → VirtualFile
    → List Event
    → Option (Attempt (List RowData))
    → Written
unfolding insert_rows
write_rows d acquired f history none = fails_with history f.last_error (err einval)
write_rows d acquired f history (some (threw what)) = fails_with history what (err einval)
write_rows d acquired f history (some (gives rows)) =
    with_connection history acquired (λ db. insert_rows d db f.path rows history f.last_error)

-- The pool is missing where the schema manager has one of another kind.
unfoldable pub handle_table_write :
    Dialect → Tools → Option (Attempt Database) → VirtualFile → List Event → Written
unfolding write_rows rows_of
handle_table_write d tools pool f history =
    if is_empty f.write_buffer then fails_with history f.last_error (ok tt) else elim pool [
      | none ↦ no_pool d history
      | some acquired ↦ write_rows d acquired f history (rows_of tools f.path.format f.write_buffer)
    ]

-- `find_first_not_of("0123456789") == npos` on a text that is not empty.
abbrev pub all_digits : Text → Bool
all_digits [] = true
all_digits (c ∷ s) = (leb b'0' c && leb c b'9') && all_digits s

abbrev pub is_numeric : Text → Bool
is_numeric id = not (is_empty id) && all_digits id

abbrev pub gives_row : Option (List (List (Option Text))) → Bool
gives_row none = false
gives_row (some rows) = not (is_empty rows)

unfoldable pub row_exists : Dialect → Database → ParsedPath → Text → List Event → Bool
row_exists d db path key history =
    if is_numeric path.row_id then gives_row (db.selects history (d.check_row path key)) else false

unfoldable pub write_row : Dialect → Database → VirtualFile → Text → RowData → List Event → Written
unfolding row_exists
write_row d db f key row history =
    let sql =
      if row_exists d db f.path key history
      then d.update_row f.path row key
      else d.new_row f.path row in
    unless_refused d history (db.refuses history sql)
      (finish_write d (history ++ executed sql ∷ []) f.last_error)

unfoldable pub parsed_row :
    Dialect → Tools → Attempt Database → VirtualFile → Text → List Event → Written
unfolding write_row
parsed_row d tools acquired f key history = elim (tools.parse_json_row f.write_buffer) [
  | threw what ↦ fails_with history what (err einval)
  | gives row ↦ with_connection history acquired (λ db. write_row d db f key row history)
]

abbrev pub no_key : List Event → Written
no_key history = fails_with history (codes "No primary key defined") (err einval)

unfoldable pub with_key :
    Dialect → Tools → Attempt Database → VirtualFile → List Event → Attempt (Option Text) → Written
unfolding parsed_row
with_key d tools acquired f history (threw what) = fails_with history what (err einval)
with_key d tools acquired f history (gives none) = no_key history
with_key d tools acquired f history (gives (some key)) =
    if is_empty key then no_key history else parsed_row d tools acquired f key history

unfoldable pub handle_row_write :
    Dialect → Tools → Option (Attempt Database) → VirtualFile → List Event → Written
unfolding with_key
handle_row_write d tools pool f history =
    if is_empty f.write_buffer then fails_with history f.last_error (ok tt) else elim pool [
      | none ↦ no_pool d history
      | some acquired ↦
          with_key d tools acquired f history (tools.primary_key f.path.database f.path.object_name)
    ]
