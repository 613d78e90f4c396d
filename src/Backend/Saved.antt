-- ===== src/Backend/Saved.antt =====
-- A file of a table that is written and flushed: `flush` of src/VirtualFile.cpp with the write handlers
-- of a backend.
use sql_fuse.Base.{All, List, Option, Text, [], ap, false, map, some, true, ℕ, ◌++◌, ◌∷◌, ◌≡◌, ◌≢◌}
use sql_fuse.Cache.Types.{CacheManager}
use sql_fuse.Cache.Valid.{IsValid}
use sql_fuse.Csv.Types.{SqlValue, default_options}
use sql_fuse.Csv.Write.{to_csv}
use sql_fuse.Csv.Documents.{IsWritable}
use sql_fuse.Router.Types.{FileFormat, NodeType}
use sql_fuse.File.Types.{VirtualFile, ok}
use sql_fuse.File.Flush.{Handlers, handle, flush}
use sql_fuse.File.Flushed.{IsForgotten, flush-IsForgotten}
use sql_fuse.Backend.Types.{Event, Database, Attempt, gives, Tools, Dialect, Written}
use sql_fuse.Backend.Write.{handle_table_write, handle_row_write}
use sql_fuse.Backend.Written.{finished, statements, Accepts}
use sql_fuse.Backend.Copied.{rows_read, handle_table_write-to_csv}

-- The handlers of a class for `flush`: they leave the cache alone.
unfoldable pub handlers : Dialect → Tools → Option (Attempt Database) → List Event → Handlers
unfolding handle_table_write handle_row_write
handlers d tools pool history = record {
  table_write =
      λ f c. let w = handle_table_write d tools pool f history in (c, w.last_error, w.reply);
  row_write = λ f c. let w = handle_row_write d tools pool f history in (c, w.last_error, w.reply);
}

-- A file of a table that was written with format CSV, with a buffer that is a written document
-- whose lines are not empty and whose values have no line feeds, in a database and with a name
-- that are not empty, and a consistent cache: if the database accepts its rows one after
-- another, the write handler of each backend sends exactly their statements, in the order of the
-- document, then commits where the backend does, and succeeds. The flush with that handler
-- succeeds and resets the file, and afterwards the cache is consistent and answers for no file
-- and no row of the table.
pub flush-to_csv :
    (d : Dialect) (tools : Tools) (db : Database) (f : VirtualFile) (history : List Event)
    (h : Text) (columns : List Text) (rows : List (List SqlValue)) (c : CacheManager) (later : ℕ)
    → f.path.type ≡ NodeType.table_file
    → f.path.format ≡ FileFormat.csv
    → f.path.database ≢ []
    → f.path.object_name ≢ []
    → f.modified ≡ true
    → f.write_buffer ≡ to_csv default_options (h ∷ columns) rows
    → IsWritable default_options (map some (h ∷ columns))
    → All (IsWritable default_options) rows
    → Accepts d db f.path history (rows_read (h ∷ columns) rows)
    → IsValid c
    → (handle_table_write d tools (some (gives db)) f history
        ≡ finished d (history ++ statements d f.path (rows_read (h ∷ columns) rows)) f.last_error)
      × (c' : CacheManager) × (f' : VirtualFile) × (flush
            (handlers d tools (some (gives db)) history)
            f
            c
          ≡ some (c', f', ok tt))
      × (f'.modified ≡ false)
      × (f'.write_buffer ≡ [])
      × IsValid c'
      × IsForgotten f.path.database f.path.object_name later c'
unfolding handlers handle
flush-to_csv d tools db f history h columns rows c later table csv named titled dirty same w ws
      accepts v =
    let sent =
      handle_table_write-to_csv d tools db f history h columns rows csv same w ws accepts in
    let (c', f', flushed, clean, emptied, v', gone) =
      flush-IsForgotten (handlers d tools (some (gives db)) history) f c later
        (rw table (λ g c v. v)) v dirty named titled
        (simp table (ap (λ (o : Written). o.reply) sent)) in
    (sent, c', f', flushed, clean, emptied, v', gone)
