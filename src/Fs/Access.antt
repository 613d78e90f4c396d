-- ===== src/Fs/Access.antt =====
-- `isDatabaseAllowed`, `fillStatForNode` and `getattr` of src/SQLFuseFS.cpp.
use sql_fuse.Base.{
  Bool, Option, Text, [], codes, false, if◌then◌else◌, is_empty, mem, none, not, some, text_eq,
  true, ℕ, ◌&&◌, ◌||◌, ◌∷◌,
}
use sql_fuse.Router.Types.{NodeType, ParsedPath, is_directory, is_read_only}
use sql_fuse.Router.{parse}
use sql_fuse.File.Types.{Reply, ok, err, enoent, eio}
use sql_fuse.Fs.Types.{is_not_found, SecurityConfig, Schema, Query, answer, throws}

abbrev pub is_system_database : Text → Bool
is_system_database db =
    text_eq db (codes "mysql")
    || (text_eq db (codes "information_schema")
        || (text_eq db (codes "performance_schema") || text_eq db (codes "sys")))

unfoldable pub is_database_allowed : SecurityConfig → Text → Bool
is_database_allowed s db =
    if mem db s.denied_databases
    then false
    else if not (is_empty s.allowed_databases)
    then mem db s.allowed_databases
    else not (not s.expose_system_databases && is_system_database db)

-- The fields of `struct stat` that depend on the node; the permission bits are three octal digits.
pub record Stat : Type 0 where
  pub is_dir : Bool
  pub permissions : ℕ
  pub nlink : ℕ
  pub size : ℕ

unfoldable pub fill_stat_for_node : SecurityConfig → ParsedPath → Stat
fill_stat_for_node s p =
    if is_directory p
    then record { is_dir = true; permissions = 0o755; nlink = 2; size = 0 }
    else record {
      is_dir = false;
      permissions = if is_read_only p || s.read_only then 0o444 else 0o644;
      nlink = 1;
      size = 4096;
    }

-- The checks of `getattr` that the object is there.
unfoldable pub exists_if : Query Bool → Reply (Unit {0})
exists_if (answer true) = ok tt
exists_if (answer false) = err enoent
exists_if throws = err eio

has_key : Query (Option Text) → Reply (Unit {0})
has_key (answer none) = err enoent
has_key (answer (some [])) = err enoent
has_key (answer (some (_ ∷ _))) = ok tt
has_key throws = err eio

unfoldable pub verify : Schema → ParsedPath → NodeType → Reply (Unit {0})
unfolding exists_if has_key
verify q p NodeType.database = exists_if (q.database_exists p.database)
verify q p NodeType.table_file = exists_if (q.table_exists p.database p.object_name)
verify q p NodeType.table_dir = exists_if (q.table_exists p.database p.object_name)
verify q p NodeType.table_schema = exists_if (q.table_exists p.database p.object_name)
verify q p NodeType.table_indexes = exists_if (q.table_exists p.database p.object_name)
verify q p NodeType.table_stats = exists_if (q.table_exists p.database p.object_name)
verify q p NodeType.table_rows_dir = exists_if (q.table_exists p.database p.object_name)
verify q p NodeType.table_row_file = has_key (q.primary_key p.database p.object_name)
verify q p _ = ok tt

unfoldable pub stat_after : SecurityConfig → ParsedPath → Reply (Unit {0}) → Reply Stat
stat_after s p (ok _) = ok (fill_stat_for_node s p)
stat_after s p (err e) = err e

unfoldable pub getattr_parsed : SecurityConfig → Schema → ParsedPath → Reply Stat
unfolding stat_after
getattr_parsed s q p =
    if is_not_found p.type
    then err enoent
    else if not (is_empty p.database) && not (is_database_allowed s p.database)
    then err enoent
    else stat_after s p (verify q p p.type)

unfoldable pub getattr : SecurityConfig → Schema → Text → Reply Stat
unfolding getattr_parsed
getattr s q path = getattr_parsed s q (parse path)
