-- ===== src/Fs/Handles.antt =====
-- src/VirtualFileHandleManager.cpp: the open files by their handles. The handles are numbered from 1,
-- and the counter of 64 bits wraps around.
use sql_fuse.Base.{List, Option, [], add64, if◌then◌else◌, length, none, some, ℕ, ◌==◌, ◌∷◌}
use sql_fuse.Router.Types.{ParsedPath}
use sql_fuse.File.Types.{VirtualFile, new_file}
use sql_fuse.Fs.Types.{HandleManager}

unfoldable pub find_handle : ℕ → List (ℕ × VirtualFile) → Option VirtualFile
find_handle h [] = none
find_handle h ((i, f) ∷ m) = if i == h then some f else find_handle h m

-- `m_handles[handle] = file`, and a file that has changed.
unfoldable pub set_handle : ℕ → VirtualFile → List (ℕ × VirtualFile) → List (ℕ × VirtualFile)
set_handle h f [] = (h, f) ∷ []
set_handle h f ((i, g) ∷ m) = if i == h then (i, f) ∷ m else (i, g) ∷ set_handle h f m

unfoldable pub erase_handle : ℕ → List (ℕ × VirtualFile) → List (ℕ × VirtualFile)
erase_handle h [] = []
erase_handle h ((i, f) ∷ m) = if i == h then erase_handle h m else (i, f) ∷ erase_handle h m

abbrev pub no_handles : HandleManager
no_handles = record { handles = []; next_handle = 1 }

unfoldable pub create : ParsedPath → HandleManager → HandleManager × ℕ
unfolding set_handle add64
create path m = (
  record m {
    handles = set_handle m.next_handle (new_file path) m.handles;
    next_handle = add64 m.next_handle 1;
  },
  m.next_handle,
)

unfoldable pub get : ℕ → HandleManager → Option VirtualFile
unfolding find_handle
get h m = find_handle h m.handles

unfoldable pub put_back : ℕ → VirtualFile → HandleManager → HandleManager
unfolding set_handle
put_back h f m = record m { handles = set_handle h f m.handles }

unfoldable pub release : ℕ → HandleManager → HandleManager
unfolding erase_handle
release h m = record m { handles = erase_handle h m.handles }

unfoldable pub open_count : HandleManager → ℕ
open_count m = length m.handles
