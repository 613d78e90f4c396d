-- ===== src/Backend/Copied.antt =====
-- A document that is written to the file of a table: what `handleTableWrite` makes of it.
use sql_fuse.Base.{All, List, Text, [], false, is_empty, map, refl, some, ℕ, ◌++◌, ◌∷◌, ◌≡◌}
use sql_fuse.Csv.Types.{RowData, SqlValue, default_options}
use sql_fuse.Csv.Write.{field_text, to_csv, header_line}
use sql_fuse.Csv.Read.{zip_row}
use sql_fuse.Csv.Documents.{IsWritable, default-IsReadable, parse_csv-to_csv}
use sql_fuse.File.Types.{VirtualFile}
use sql_fuse.Router.Types.{FileFormat}
use sql_fuse.Backend.Types.{Event, gives, Database, Tools, Dialect}
use sql_fuse.Backend.Write.{handle_table_write, write_rows, rows_of}
use sql_fuse.Backend.Written.{finished, statements, Accepts, insert_rows-Accepts}

is_empty-middle : (s t u : Text) (c : ℕ) → is_empty ((s ++ c ∷ t) ++ u) ≡ false
is_empty-middle [] t u c = refl
is_empty-middle (b ∷ s) t u c = refl

to_csv-is_empty :
    (columns : List Text) (rows : List (List SqlValue))
    → is_empty (to_csv default_options columns rows) ≡ false
unfolding to_csv
to_csv-is_empty columns rows = is_empty-middle (header_line default_options columns) [] _ b'\n'

-- The rows of a document, as they are read.
abbrev pub rows_read : List Text → List (List SqlValue) → List RowData
rows_read columns rows = map (λ row. zip_row columns (map field_text row)) rows

-- A table file with format CSV whose buffer is a written document, with columns and rows whose
-- lines are not empty and whose values have no line feeds: if the database accepts its rows one
-- after another, the write handler of each backend sends exactly their statements, in the order
-- of the document, then commits where the backend does, and succeeds.
pub handle_table_write-to_csv :
    (d : Dialect) (tools : Tools) (db : Database) (f : VirtualFile) (history : List Event)
    (h : Text) (columns : List Text) (rows : List (List SqlValue))
    → f.path.format ≡ FileFormat.csv
    → f.write_buffer ≡ to_csv default_options (h ∷ columns) rows
    → IsWritable default_options (map some (h ∷ columns))
    → All (IsWritable default_options) rows
    → Accepts d db f.path history (rows_read (h ∷ columns) rows)
    → handle_table_write d tools (some (gives db)) f history
      ≡ finished d (history ++ statements d f.path (rows_read (h ∷ columns) rows)) f.last_error
unfolding handle_table_write rows_of write_rows
handle_table_write-to_csv d tools db f history h columns rows csv same w ws accepts =
    simp
      (
        csv,
        same,
        to_csv-is_empty (h ∷ columns) rows,
        parse_csv-to_csv default_options default-IsReadable h columns rows w ws,
      )
      (insert_rows-Accepts d db f.path f.last_error (rows_read (h ∷ columns) rows) history accepts)
