-- ===== src/Backend/Sqlite.antt =====
-- The statements of src/sqlite/SQLiteVirtualFile.cpp that write.
use sql_fuse.Base.{
  Bool, List, Option, Text, [], codes, false, if◌then◌else◌, none, some, text_eq, true, ◌++◌, ◌∷◌,
}
use sql_fuse.Csv.Types.{RowData, SqlValue}
use sql_fuse.Router.Types.{ParsedPath}
use sql_fuse.File.Types.{VirtualFile, err, eio}
use sql_fuse.Sql.Sqlite
use sql_fuse.Backend.Write
use sql_fuse.Backend.Types.{Attempt, Dialect, bare, Tools, Database, Event, Written}

abbrev pub comma : Bool → Text
comma first = if first then [] else codes ", "

-- The loop over the columns, and that over the values.
unfoldable pub column_list : Bool → RowData → Text
column_list first [] = []
column_list first ((key, value) ∷ row) = comma first ++ (bare key ++ column_list false row)

unfoldable pub value_of : SqlValue → Text
unfolding Sqlite.escape_sql
value_of none = codes "NULL"
value_of (some value) = codes "'" ++ (Sqlite.escape_sql value ++ codes "'")

unfoldable pub value_list : Bool → RowData → Text
unfolding value_of
value_list first [] = []
value_list first ((key, value) ∷ row) = comma first ++ (value_of value ++ value_list false row)

unfoldable pub insert_with : Text → Text → RowData → Text
unfolding column_list value_list
insert_with verb table row =
    verb
    ++ (bare table
        ++ (codes " ("
            ++ (column_list true row
                ++ (codes ") VALUES (" ++ (value_list true row ++ codes ")")))))

-- The loop of the assignments, without the key's.
unfoldable pub assignment_list : Text → Bool → RowData → Text
unfolding value_of
assignment_list key first [] = []
assignment_list key first ((column, value) ∷ row) =
    let rest = assignment_list key false row in
    let same = assignment_list key first row in
    if text_eq column key
    then same
    else comma first ++ (bare column ++ (codes " = " ++ (value_of value ++ rest)))

unfoldable pub update_with : Text → RowData → Text → Text → Text
unfolding assignment_list Sqlite.escape_sql
update_with table row key id =
    codes "UPDATE "
    ++ (bare table
        ++ (codes " SET "
            ++ (assignment_list key true row
                ++ (codes " WHERE "
                    ++ (bare key ++ (codes " = '" ++ (Sqlite.escape_sql id ++ codes "'")))))))

unfoldable pub check_row : ParsedPath → Text → Text
unfolding Sqlite.escape_sql
check_row path key =
    codes "SELECT 1 FROM "
    ++ (bare path.object_name
        ++ (codes " WHERE "
            ++ (bare key ++ (codes " = '" ++ (Sqlite.escape_sql path.row_id ++ codes "'")))))

unfoldable pub dialect : Dialect
unfolding insert_with update_with check_row
dialect = record {
  database_name = codes "SQLite";
  insert_row = λ path row. insert_with (codes "INSERT OR REPLACE INTO ") path.object_name row;
  new_row = λ path row. insert_with (codes "INSERT INTO ") path.object_name row;
  update_row = λ path row key. update_with path.object_name row key path.row_id;
  check_row = check_row;
  error_of = λ e. err eio;
  commits = false;
}

unfoldable pub handle_table_write :
    Tools → Option (Attempt Database) → VirtualFile → List Event → Written
unfolding dialect Write.handle_table_write
handle_table_write = Write.handle_table_write dialect

unfoldable pub handle_row_write :
    Tools → Option (Attempt Database) → VirtualFile → List Event → Written
unfolding dialect Write.handle_row_write
handle_row_write = Write.handle_row_write dialect
