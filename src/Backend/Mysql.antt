-- ===== src/Backend/Mysql.antt =====
-- The statements of src/mysql/MySQLVirtualFile.cpp that write.
use sql_fuse.Base.{List, Option, Text, codes, false, magnitude, true, ◌++◌}
use sql_fuse.Router.Types.{ParsedPath}
use sql_fuse.Errors.Codes.{MysqlCodes}
use sql_fuse.Errors.Errno.{mysql_to_errno}
use sql_fuse.Sql.Mysql
use sql_fuse.File.Types.{VirtualFile}
use sql_fuse.Backend.Write
use sql_fuse.Backend.Types.{Attempt, negated, Dialect, dotted, Tools, Database, Event, Written}

unfoldable pub check_row : ParsedPath → Text → Text
unfolding Mysql.escape_sql
check_row path key =
    codes "SELECT 1 FROM `"
    ++ (path.database
        ++ (codes "`.`"
            ++ (path.object_name
                ++ (codes "` WHERE `"
                    ++ (key
                        ++ (codes "` = '"
                            ++ (Mysql.escape_sql path.row_id ++ codes "' LIMIT 1")))))))

unfoldable pub dialect : MysqlCodes → Dialect
unfolding check_row Mysql.build_insert Mysql.build_update mysql_to_errno
dialect known = record {
  database_name = codes "MySQL";
  insert_row = λ path row. Mysql.build_insert (dotted path) row true;
  new_row = λ path row. Mysql.build_insert (dotted path) row true;
  update_row = λ path row key. Mysql.build_update (dotted path) row key path.row_id true;
  check_row = check_row;
  error_of = λ e. negated (mysql_to_errno known (magnitude e.number));
  commits = false;
}

unfoldable pub handle_table_write :
    MysqlCodes → Tools → Option (Attempt Database) → VirtualFile → List Event → Written
unfolding dialect Write.handle_table_write
handle_table_write known = Write.handle_table_write (dialect known)

unfoldable pub handle_row_write :
    MysqlCodes → Tools → Option (Attempt Database) → VirtualFile → List Event → Written
unfolding dialect Write.handle_row_write
handle_row_write known = Write.handle_row_write (dialect known)
