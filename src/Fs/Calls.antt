-- ===== src/Fs/Calls.antt =====
-- `open`, `read`, `write`, `create`, `truncate`, `flush` and `release` of src/SQLFuseFS.cpp. `none`
-- is the undefined behaviour of the cache.
use sql_fuse.Base.{
  Bool, Option, Text, [], drop, false, if◌then◌else◌, leb, length, min, none, not, some, take, true,
  ℕ, ◌&&◌, ◌-◌, ◌==◌, ◌||◌,
}
use sql_fuse.Cache.Lru.{◌>>=◌}
use sql_fuse.Router.Types.{NodeType, ParsedPath, is_directory, is_read_only}
use sql_fuse.Router.{parse}
use sql_fuse.File.Types.{Reply, ok, err, enoent, eacces, ebadf, eisdir, erofs, VirtualFile}
use sql_fuse.File.Buffer
use sql_fuse.File.Load.{Generators, get_content}
use sql_fuse.File.Flush
use sql_fuse.File.Flush.{Handlers}
use sql_fuse.Fs.Types.{is_not_found, SqlFuseFs}
use sql_fuse.Fs.Handles

-- `fi->flags & O_ACCMODE`.
pub data AccessMode : Type 0 where
  rdonly wronly rdwr : AccessMode

abbrev pub is_writing : AccessMode → Bool
is_writing rdonly = false
is_writing _ = true

unfoldable pub open_handle : ParsedPath → SqlFuseFs → SqlFuseFs × Reply ℕ
open_handle p fs = let (m, h) = Handles.create p fs.files in (record fs { files = m }, ok h)

unfoldable pub open_file : Text → AccessMode → SqlFuseFs → SqlFuseFs × Reply ℕ
unfolding open_handle
open_file path mode fs =
    let p = parse path in
    if is_not_found p.type
    then (fs, err enoent)
    else if is_directory p
    then (fs, err eisdir)
    else if is_writing mode && (fs.security.read_only || is_read_only p)
    then (fs, err erofs)
    else open_handle p fs

is_row_file : NodeType → Bool
is_row_file NodeType.table_row_file = true
is_row_file _ = false

unfoldable pub create : Text → SqlFuseFs → SqlFuseFs × Reply ℕ
unfolding is_row_file open_handle
create path fs =
    let p = parse path in
    if fs.security.read_only
    then (fs, err erofs)
    else if not (is_row_file p.type)
    then (fs, err eacces)
    else open_handle p fs

-- What `read` copies out of the content.
unfoldable pub slice : ℕ → ℕ → Text → Text
slice size offset content =
    if leb (length content) offset
    then []
    else take (min size (length content - offset)) (drop offset content)

unfoldable pub read_file :
    Generators → ℕ → ℕ → ℕ → ℕ → SqlFuseFs → Option VirtualFile → Option (SqlFuseFs × Reply Text)
unfolding slice
read_file g h size offset now fs none = some (fs, err ebadf)
read_file g h size offset now fs (some f) = do
  (cache, f') ← get_content g now f fs.cache
  some (
    record fs { cache = cache; files = Handles.put_back h f' fs.files },
    ok (slice size offset f'.content),
  )

unfoldable pub read : Generators → ℕ → ℕ → ℕ → ℕ → SqlFuseFs → Option (SqlFuseFs × Reply Text)
unfolding read_file
read g h size offset now fs = read_file g h size offset now fs (Handles.get h fs.files)

write_file : Text → ℕ → ℕ → SqlFuseFs → Option VirtualFile → SqlFuseFs × Reply ℕ
write_file bytes offset h fs none = (fs, err ebadf)
write_file bytes offset h fs (some f) =
    let (f', result) = Buffer.write bytes offset f in
    (record fs { files = Handles.put_back h f' fs.files }, result)

unfoldable pub write : Text → ℕ → ℕ → SqlFuseFs → SqlFuseFs × Reply ℕ
unfolding write_file
write bytes offset h fs =
    if fs.security.read_only
    then (fs, err erofs)
    else write_file bytes offset h fs (Handles.get h fs.files)

truncate_file : ℕ → ℕ → SqlFuseFs → Option VirtualFile → SqlFuseFs × Reply (Unit {0})
truncate_file size h fs none = if size == 0 then (fs, ok tt) else (fs, err eacces)
truncate_file size h fs (some f) =
    let (f', result) = Buffer.truncate size f in
    (record fs { files = Handles.put_back h f' fs.files }, result)

-- A handle of 0 stands for a call without a handle.
unfoldable pub truncate : ℕ → ℕ → SqlFuseFs → SqlFuseFs × Reply (Unit {0})
unfolding truncate_file
truncate size h fs =
    if fs.security.read_only
    then (fs, err erofs)
    else truncate_file size h fs (if h == 0 then none else Handles.get h fs.files)

unfoldable pub flush_file :
    Handlers → ℕ → SqlFuseFs → Option VirtualFile → Option (SqlFuseFs × Reply (Unit {0}))
flush_file w h fs none = some (fs, ok tt)
flush_file w h fs (some f) =
    let flushed = Flush.flush w f fs.cache in
    if f.modified
    then (do
      (cache, f', result) ← flushed
      some (record fs { cache = cache; files = Handles.put_back h f' fs.files }, result))
    else some (fs, ok tt)

unfoldable pub flush : Handlers → ℕ → SqlFuseFs → Option (SqlFuseFs × Reply (Unit {0}))
unfolding flush_file
flush w h fs = flush_file w h fs (Handles.get h fs.files)

-- The result of the flush is only logged.
unfoldable pub release : Handlers → ℕ → SqlFuseFs → Option (SqlFuseFs × Reply (Unit {0}))
unfolding flush
release w h fs = do
  (fs', _) ← flush w h fs
  some (record fs' { files = Handles.release h fs'.files }, ok tt)
