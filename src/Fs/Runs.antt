-- ===== src/Fs/Runs.antt =====
-- The calls of src/SQLFuseFS.cpp that FUSE makes, in their order: all that `getFuseOperations` has but
-- the set-up and its end.
use sql_fuse.Base.{List, Option, Text, [], if◌then◌else◌, none, some, ℕ, ◌∷◌}
use sql_fuse.Cache.Types.{CacheManager}
use sql_fuse.Cache.Lru.{◌>>=◌}
use sql_fuse.File.Types.{VirtualFile}
use sql_fuse.File.Load.{Generators}
use sql_fuse.File.Flush.{Handlers}
use sql_fuse.Fs.Types.{SqlFuseFs}
use sql_fuse.Fs.Handles
use sql_fuse.Fs.Calls.{AccessMode, open_file, create, read, write, truncate, flush, release}
use sql_fuse.Errors.Codes.{MysqlCodes}
use sql_fuse.Backend.Types.{Event}
use sql_fuse.Backend.Unlink.{Reach, unlink}

pub data Call : Type 0 where
  getattr_call readdir_call : Text → Call
  open_call : Text → AccessMode → Call
  create_call unlink_call : Text → Call
  read_call : ℕ → ℕ → ℕ → ℕ → Call
  write_call : Text → ℕ → ℕ → Call
  truncate_call : ℕ → ℕ → Call
  flush_call release_call : ℕ → Call
  statfs_call utimens_call : Call

-- What the lookups of the schema manager for a path, in `getattr` and `readdir`, leave of the cache.
abbrev pub Lookups : Type 0
Lookups = Text → CacheManager → CacheManager

-- The backend: its write handlers, after what the database has done, what they leave there, and how
-- `unlink` reaches it.
pub record Backend : Type 0 where
  pub handlers : List Event → Handlers
  pub sends : VirtualFile → List Event → List Event
  pub known : MysqlCodes
  pub reach : Reach

-- The file system, and what its database has done.
pub record Mount : Type 0 where
  pub fs : SqlFuseFs
  pub history : List Event

-- A file that was not written sends nothing.
unfoldable pub sent : Backend → Option VirtualFile → List Event → List Event
sent b none history = history
sent b (some f) history = if f.modified then b.sends f history else history

abbrev pub look_up : Lookups → Text → Mount → Mount
look_up q path m = record m { fs = record (m.fs) { cache = q path m.fs.cache } }

-- The state after a call; the reply is forgotten.
unfoldable pub step : Generators → Lookups → Backend → Call → Mount → Option Mount
unfolding sent unlink
step g q b (getattr_call path) m = some (look_up q path m)
step g q b (readdir_call path) m = some (look_up q path m)
step g q b (open_call path mode) m = some (record m { fs = (open_file path mode m.fs).0 })
step g q b (create_call path) m = some (record m { fs = (create path m.fs).0 })
step g q b (unlink_call path) m = do
  u ← unlink b.known b.reach m.fs.security.read_only path m.history m.fs.cache
  some (record { fs = record (m.fs) { cache = u.cache }; history = u.history })
step g q b (read_call h size offset now) m = do
  (fs, _) ← read g h size offset now m.fs
  some (record m { fs = fs })
step g q b (write_call bytes offset h) m = some (record m { fs = (write bytes offset h m.fs).0 })
step g q b (truncate_call size h) m = some (record m { fs = (truncate size h m.fs).0 })
step g q b (flush_call h) m = do
  (fs, _) ← flush (b.handlers m.history) h m.fs
  some (record { fs = fs; history = sent b (Handles.get h m.fs.files) m.history })
step g q b (release_call h) m = do
  (fs, _) ← release (b.handlers m.history) h m.fs
  some (record { fs = fs; history = sent b (Handles.get h m.fs.files) m.history })
step g q b statfs_call m = some m
step g q b utimens_call m = some m

unfoldable pub run : Generators → Lookups → Backend → List Call → Mount → Option Mount
unfolding step
run g q b [] m = some m
run g q b (c ∷ cs) m = do m' ← step g q b c m; run g q b cs m'
