-- ===== src/Backend/Postgresql.antt =====
-- The statements of src/postgresql/PostgreSQLVirtualFile.cpp that write.
use sql_fuse.Base.{List, Option, Text, codes, false, true, ◌++◌}
use sql_fuse.Router.Types.{ParsedPath}
use sql_fuse.File.Types.{VirtualFile, err, eio}
use sql_fuse.Sql.Postgresql
use sql_fuse.Backend.Write
use sql_fuse.Backend.Types.{Attempt, Dialect, Tools, Database, Event, Written}

unfoldable pub check_row : ParsedPath → Text → Text
unfolding Postgresql.escape_sql
check_row path key =
    codes "SELECT 1 FROM \""
    ++ (path.object_name
        ++ (codes "\" WHERE \""
            ++ (key
                ++ (codes "\" = '" ++ (Postgresql.escape_sql path.row_id ++ codes "' LIMIT 1")))))

unfoldable pub dialect : Dialect
unfolding check_row Postgresql.build_insert Postgresql.build_update
dialect = record {
  database_name = codes "PostgreSQL";
  insert_row = λ path row. Postgresql.build_insert path.object_name row true;
  new_row = λ path row. Postgresql.build_insert path.object_name row true;
  update_row = λ path row key. Postgresql.build_update path.object_name row key path.row_id true;
  check_row = check_row;
  error_of = λ e. err eio;
  commits = false;
}

unfoldable pub handle_table_write :
    Tools → Option (Attempt Database) → VirtualFile → List Event → Written
unfolding dialect Write.handle_table_write
handle_table_write = Write.handle_table_write dialect

unfoldable pub handle_row_write :
    Tools → Option (Attempt Database) → VirtualFile → List Event → Written
unfolding dialect Write.handle_row_write
handle_row_write = Write.handle_row_write dialect
