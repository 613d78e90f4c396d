-- ===== src/Fs/Modes.antt =====
-- The permission bits of `getattr` and the modes that `open` of src/SQLFuseFS.cpp accepts.
use sql_fuse.Base.{
  Bool-cases, Text, arith, false, if◌then◌else◌, inl, inr, is_empty, not, refl, true, ℕ, ◌&&◌, ◌==◌,
  ◌∙◌, ◌≡◌,
}
use sql_fuse.Router.Types.{ParsedPath, is_directory, is_read_only}
use sql_fuse.Router.{parse}
use sql_fuse.File.Types.{Reply, ok, err, eisdir, erofs}
use sql_fuse.Fs.Handles
use sql_fuse.Fs.Types.{is_not_found, SecurityConfig, Schema, SqlFuseFs}
use sql_fuse.Fs.Access.{
  is_database_allowed, Stat, fill_stat_for_node, verify, stat_after, getattr_parsed, getattr,
}
use sql_fuse.Fs.Calls.{AccessMode, is_writing, open_handle, open_file}

ok-stat_after :
    (s : SecurityConfig) (p : ParsedPath) (r : Reply (Unit {0})) (st : Stat)
    → stat_after s p r ≡ ok st
    → fill_stat_for_node s p ≡ st
unfolding stat_after
ok-stat_after s p (ok _) st e = cc
ok-stat_after s p (err x) st e = absurd cc

-- A stat that `getattr` gives is filled in for a path that is found.
ok-getattr :
    (s : SecurityConfig) (q : Schema) (p : ParsedPath) (st : Stat)
    → getattr_parsed s q p ≡ ok st
    → (is_not_found p.type ≡ false) × (fill_stat_for_node s p ≡ st)
unfolding getattr_parsed
ok-getattr s q p st e = elim (Bool-cases (is_not_found p.type)) [
  | inl h ↦ absurd (ground (arith, h, e))
  | inr h ↦
      elim (Bool-cases (not (is_empty p.database) && not (is_database_allowed s p.database))) [
        | inl k ↦ absurd (ground (arith, h, k, e))
        | inr k ↦ (h, ok-stat_after s p (verify q p p.type) st (simp (h, k) at e))
      ]
]

-- What `open` answers by a stat: an error for a directory and for writing what has no write
-- permission, else a new handle.
abbrev pub answer_by : Stat → AccessMode → ℕ → Reply ℕ
answer_by st mode h =
    if st.is_dir
    then err eisdir
    else if is_writing mode && not (st.permissions == 0o644)
    then err erofs
    else ok h

open_file-writing :
    (path : Text) (mode : AccessMode) (fs : SqlFuseFs)
    → is_not_found (parse path).type ≡ false
    → is_directory (parse path) ≡ false
    → is_writing mode ≡ true
    → (open_file path mode fs).1
      ≡ answer_by (fill_stat_for_node fs.security (parse path)) mode fs.files.next_handle
unfolding open_file open_handle fill_stat_for_node Handles.create
open_file-writing path mode fs found d w = elim (Bool-cases fs.security.read_only) [
  | inl o ↦ elim (Bool-cases (is_read_only (parse path))) [
    | inl r ↦ simp (found, d, w, r, o)
    | inr r ↦ simp (found, d, w, r, o)
  ]
  | inr o ↦ elim (Bool-cases (is_read_only (parse path))) [
    | inl r ↦ simp (found, d, w, r, o)
    | inr r ↦ simp (found, d, w, r, o)
  ]
]

open_file-filled :
    (path : Text) (mode : AccessMode) (fs : SqlFuseFs)
    → is_not_found (parse path).type ≡ false
    → (open_file path mode fs).1
      ≡ answer_by (fill_stat_for_node fs.security (parse path)) mode fs.files.next_handle
unfolding open_file open_handle fill_stat_for_node Handles.create
open_file-filled path mode fs found = elim (Bool-cases (is_directory (parse path))) [
  | inl d ↦ simp (found, d)
  | inr d ↦ elim (Bool-cases (is_writing mode)) [
    | inr w ↦ simp (found, d, w)
    | inl w ↦ open_file-writing path mode fs found d w
  ]
]

-- For a path that `getattr` finds, `open` does what the stat promises: a directory is not
-- opened, a file is opened for reading, and for writing exactly if its permissions allow it.
pub open_file-getattr :
    (q : Schema) (path : Text) (mode : AccessMode) (fs : SqlFuseFs) (st : Stat)
    → getattr fs.security q path ≡ ok st
    → (open_file path mode fs).1 ≡ answer_by st mode fs.files.next_handle
unfolding getattr
open_file-getattr q path mode fs st e =
    let (found, filled) = ok-getattr fs.security q (parse path) st e in
    open_file-filled path mode fs found ∙ rw filled refl
