-- ===== src/Backend/Unlink.antt =====
-- `unlink` of src/SQLFuseFS.cpp.
use sql_fuse.Base.{
  Bool, List, Option, Text, [], false, if◌then◌else◌, is_empty, magnitude, none, not, some, true, ℕ,
  ◌%◌, ◌++◌, ◌==◌, ◌^◌, ◌∷◌,
}
use sql_fuse.Cache.Types.{CacheManager}
use sql_fuse.Cache.Lru.{◌>>=◌}
use sql_fuse.Cache.Drop.{invalidate_table}
use sql_fuse.Router.Types.{ParsedPath, NodeType}
use sql_fuse.Router.{parse}
use sql_fuse.File.Types.{Reply, ok, err, erofs, eacces, einval, eio, enoent}
use sql_fuse.Errors.Codes.{MysqlCodes}
use sql_fuse.Errors.Errno.{mysql_to_errno, oracle_to_errno}
use sql_fuse.Schema.Kind.{DatabaseType, mysql, sqlite, postgresql, oracle}
use sql_fuse.Sql.Mysql
use sql_fuse.Sql.Sqlite
use sql_fuse.Sql.Postgresql
use sql_fuse.Sql.Oracle
use sql_fuse.Backend.Types.{
  Event, executed, committed, DbError, Database, Attempt, gives, threw, negated, dotted,
}

unfoldable pub delete_sql : DatabaseType → ParsedPath → Text → Text
unfolding Mysql.build_delete Sqlite.build_delete Postgresql.build_delete Oracle.build_delete
delete_sql mysql path key = Mysql.build_delete (dotted path) key path.row_id true
delete_sql sqlite path key = Sqlite.build_delete path.object_name key path.row_id true
delete_sql postgresql path key = Postgresql.build_delete path.object_name key path.row_id true
delete_sql oracle path key = Oracle.build_delete (dotted path) key path.row_id true

unfoldable pub delete_error : MysqlCodes → DatabaseType → DbError → Reply (Unit {0})
unfolding mysql_to_errno oracle_to_errno
delete_error known mysql e = negated (mysql_to_errno known (magnitude e.number))
delete_error known sqlite e = err eio
delete_error known postgresql e = err eio
delete_error known oracle e = negated (oracle_to_errno e.number)

-- What the connection has done when the statement was accepted.
abbrev pub deleted : DatabaseType → Text → List Event
deleted oracle sql = executed sql ∷ committed ∷ []
deleted _ sql = executed sql ∷ []

pub record Unlinked : Type 0 where
  pub history : List Event
  pub cache : CacheManager
  pub reply : Reply (Unit {0})

-- How the file system reaches its database: the kind, the pool if it is there, with the connection that it gives, the number of
-- rows that a statement changes, and the primary key of a table.
pub record Reach : Type 0 where
  pub type : DatabaseType
  pub pool : Option (Attempt Database)
  pub affected_rows : List Event → Text → ℕ
  pub primary_key : Text → Text → Attempt (Option Text)

abbrev pub stays : List Event → CacheManager → Reply (Unit {0}) → Option Unlinked
stays history c reply = some (record { history = history; cache = c; reply = reply })

-- The end: no row was there, or the cache forgets the table.
unfoldable pub finish_unlink : ParsedPath → ℕ → List Event → CacheManager → Option Unlinked
unfolding invalidate_table
finish_unlink path affected history c =
    if affected % 2 ^ 32 == 0
    then stays history c (err enoent)
    else invalidate_table path.database path.object_name c >>= λ c'. stays history c' (ok tt)

unfoldable pub delete_row :
    MysqlCodes
    → Reach
    → ParsedPath
    → Text
    → List Event
    → CacheManager
    → Option DbError
    → Option Unlinked
unfolding finish_unlink delete_error delete_sql
delete_row known reach path key history c (some e) =
    stays history c (delete_error known reach.type e)
delete_row known reach path key history c none =
    let sql = delete_sql reach.type path key in
    finish_unlink path (reach.affected_rows history sql) (history ++ deleted reach.type sql) c

unfoldable pub unlink_row :
    MysqlCodes
    → Reach
    → ParsedPath
    → List Event
    → CacheManager
    → Text
    → Option (Attempt Database)
    → Option Unlinked
unfolding delete_row
unlink_row known reach path history c key none = stays history c (err eio)
unlink_row known reach path history c key (some (threw what)) = stays history c (err eio)
unlink_row known reach path history c key (some (gives db)) =
    delete_row known reach path key history c (db.refuses history (delete_sql reach.type path key))

unfoldable pub with_key :
    MysqlCodes
    → Reach
    → ParsedPath
    → List Event
    → CacheManager
    → Attempt (Option Text)
    → Option Unlinked
unfolding unlink_row
with_key known reach path history c (threw what) = stays history c (err eio)
with_key known reach path history c (gives none) = stays history c (err einval)
with_key known reach path history c (gives (some key)) =
    if is_empty key
    then stays history c (err einval)
    else unlink_row known reach path history c key reach.pool

abbrev pub is_row_file : NodeType → Bool
is_row_file NodeType.table_row_file = true
is_row_file _ = false

unfoldable pub unlink :
    MysqlCodes → Reach → Bool → Text → List Event → CacheManager → Option Unlinked
unfolding with_key parse
unlink known reach read_only path history c =
    let parsed = parse path in
    if read_only
    then stays history c (err erofs)
    else if not (is_row_file parsed.type)
    then stays history c (err eacces)
    else with_key known reach parsed history c
        (reach.primary_key parsed.database parsed.object_name)
