-- ===== src/Fs/ReadOnly.antt =====
-- The calls of src/SQLFuseFS.cpp on a file system that is mounted read-only.
use sql_fuse.Fs.Handles
use sql_fuse.Fs.Runs.{Backend}
