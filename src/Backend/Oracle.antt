-- ===== src/Backend/Oracle.antt =====
-- The statements of src/oracle/OracleVirtualFile.cpp that write.
use sql_fuse.Base.{List, Option, Text, codes, true, ◌++◌}
use sql_fuse.Router.Types.{ParsedPath}
use sql_fuse.Errors.Errno.{oracle_to_errno}
use sql_fuse.Sql.Oracle
use sql_fuse.File.Types.{VirtualFile}
use sql_fuse.Backend.Write
use sql_fuse.Backend.Types.{Attempt, negated, Dialect, dotted, Tools, Database, Event, Written}

unfoldable pub check_row : ParsedPath → Text → Text
unfolding Oracle.escape_identifier Oracle.escape_sql
check_row path key =
    codes "SELECT 1 FROM "
    ++ (Oracle.escape_identifier path.database
        ++ (codes "."
            ++ (Oracle.escape_identifier path.object_name
                ++ (codes " WHERE "
                    ++ (Oracle.escape_identifier key
                        ++ (codes " = '"
                            ++ (Oracle.escape_sql path.row_id
                                ++ codes "' FETCH FIRST 1 ROWS ONLY")))))))

unfoldable pub dialect : Dialect
unfolding check_row Oracle.build_insert Oracle.build_update oracle_to_errno
dialect = record {
  database_name = codes "Oracle";
  insert_row = λ path row. Oracle.build_insert (dotted path) row true;
  new_row = λ path row. Oracle.build_insert (dotted path) row true;
  update_row = λ path row key. Oracle.build_update (dotted path) row key path.row_id true;
  check_row = check_row;
  error_of = λ e. negated (oracle_to_errno e.number);
  commits = true;
}

unfoldable pub handle_table_write :
    Tools → Option (Attempt Database) → VirtualFile → List Event → Written
unfolding dialect Write.handle_table_write
handle_table_write = Write.handle_table_write dialect

unfoldable pub handle_row_write :
    Tools → Option (Attempt Database) → VirtualFile → List Event → Written
unfolding dialect Write.handle_row_write
handle_row_write = Write.handle_row_write dialect
