-- ===== src/File/Flush.antt =====
-- `flush` of src/VirtualFile.cpp.
use sql_fuse.Base.{Option, Text, [], false, if◌then◌else◌, is_empty, not, some, ◌&&◌}
use sql_fuse.Cache.Lru.{◌>>=◌}
use sql_fuse.Router.Types.{NodeType}
use sql_fuse.Cache.Types.{CacheManager}
use sql_fuse.Cache.Drop.{invalidate_table}
use sql_fuse.File.Types.{Reply, ok, err, erofs, VirtualFile}

-- A handler of the backend: it writes the buffer to the database, and may have used the cache and
-- set the error text.
abbrev pub Handler : Type 0
Handler = VirtualFile → CacheManager → CacheManager × Text × Reply (Unit {0})

pub record Handlers : Type 0 where
  pub table_write : Handler
  pub row_write : Handler

read_only_handler : Handler
read_only_handler f c = (c, f.last_error, err erofs)

unfoldable pub handle : Handlers → NodeType → Handler
unfolding read_only_handler
handle h NodeType.table_file = h.table_write
handle h NodeType.table_row_file = h.row_write
handle h _ = read_only_handler

-- `if (!database.empty() && !object_name.empty()) invalidateTable(...)`.
unfoldable pub invalidate_file : VirtualFile → CacheManager → Option CacheManager
invalidate_file f c =
    if not (is_empty f.path.database) && not (is_empty f.path.object_name)
    then invalidate_table f.path.database f.path.object_name c
    else some c

unfoldable pub finish_flush :
    VirtualFile
    → CacheManager
    → Reply (Unit {0})
    → Option (CacheManager × VirtualFile × Reply (Unit {0}))
unfolding invalidate_file
finish_flush f c (err e) = some (c, f, err e)
finish_flush f c (ok _) = do
  c' ← invalidate_file f c
  some (c', record f { modified = false; write_buffer = [] }, ok tt)

unfoldable pub flush :
    Handlers → VirtualFile → CacheManager → Option (CacheManager × VirtualFile × Reply (Unit {0}))
unfolding finish_flush
flush h f c =
    let (c', message, result) = handle h f.path.type f c in
    if f.modified
    then finish_flush (record f { last_error = message }) c' result
    else some (c, f, ok tt)
