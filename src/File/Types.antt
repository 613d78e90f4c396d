-- ===== src/File/Types.antt =====
-- The state of a `VirtualFile` (include/VirtualFile.hpp), and the results of the calls: a value, or
-- a negated error number.
use sql_fuse.Base.{Bool, Text, [], false}
use sql_fuse.Router.Types.{ParsedPath}

pub data Errno : Type 0 where
  enoent eio ebadf eacces enotdir eisdir einval erofs eexist etimedout enospc ebusy : Errno

pub data Reply {ℓ} (A : Type ℓ) : Type ℓ where
  ok : A → Reply A
  err : Errno → Reply A

pub record VirtualFile : Type 0 where
  pub path : ParsedPath
  pub content : Text
  pub write_buffer : Text
  pub content_loaded : Bool
  pub modified : Bool
  pub last_error : Text

-- The constructor.
abbrev pub new_file : ParsedPath → VirtualFile
new_file path = record {
  path = path;
  content = [];
  write_buffer = [];
  content_loaded = false;
  modified = false;
  last_error = [];
}
