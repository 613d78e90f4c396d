-- ===== src/Fs/HandleLaws.antt =====
-- src/VirtualFileHandleManager.cpp: a handle names one open file, from `create` to `release`.
use sql_fuse.Base.{
  List, [], add64, arith, if◌then◌else◌, none, refl, some, word, ℕ, ◌+◌, ◌<◌, ◌==◌, ◌∷◌, ◌≡◌, ◌≢◌,
  ◌≤◌,
}
use sql_fuse.Router.Types.{ParsedPath}
use sql_fuse.File.Types.{VirtualFile, new_file}
use sql_fuse.Fs.Types.{HandleManager}
use sql_fuse.Fs.Handles.{find_handle, set_handle, erase_handle, create, get, release}

pub find_handle-set_handle :
    (i h : ℕ) (f : VirtualFile) (m : List (ℕ × VirtualFile))
    → find_handle i (set_handle h f m) ≡ (if h == i then some f else find_handle i m)
unfolding find_handle set_handle
find_handle-set_handle i h f [] = refl
find_handle-set_handle i h f ((j, g) ∷ m) = ground (arith, find_handle-set_handle i h f m)

pub find_handle-erase_handle :
    (i h : ℕ) (m : List (ℕ × VirtualFile))
    → find_handle i (erase_handle h m) ≡ (if h == i then none else find_handle i m)
unfolding find_handle erase_handle
find_handle-erase_handle i h [] = ground arith
find_handle-erase_handle i h ((j, g) ∷ m) = ground (arith, find_handle-erase_handle i h m)

-- Every handle in use is below the next one.
abbrev pub IsNumbered : HandleManager → Type 0
IsNumbered m = (h : ℕ) → m.next_handle ≤ h → get h m ≡ none

-- With handles that are all below the next one, which is below 2 ^ 64 - 1, `create` gives a
-- handle that no open file has, under which the new file stands; the files under the other
-- handles stay, and the handles stay below the next one.
pub create-fresh :
    (p : ParsedPath) (m : HandleManager)
    → m.next_handle + 1 < word
    → IsNumbered m
    → (get (create p m).1 m ≡ none)
      × (get (create p m).1 (create p m).0 ≡ some (new_file p))
      × ((i : ℕ) → i ≢ (create p m).1 → get i (create p m).0 ≡ get i m)
      × IsNumbered (create p m).0
unfolding create get add64
create-fresh p m fits n = (
  n m.next_handle (omega arith),
  ground (arith, find_handle-set_handle m.next_handle m.next_handle (new_file p) m.handles),
  λ i ne. ground (arith, find_handle-set_handle i m.next_handle (new_file p) m.handles),
  λ h le.
      ground
        (arith, find_handle-set_handle h m.next_handle (new_file p) m.handles, n h (omega arith)),
)

-- With handles that are all below the next one, `release` closes one handle and no other, and
-- the handles stay below the next one.
release-get :
    (h : ℕ) (m : HandleManager)
    → IsNumbered m
    → (get h (release h m) ≡ none)
      × ((i : ℕ) → i ≢ h → get i (release h m) ≡ get i m)
      × IsNumbered (release h m)
unfolding release get
release-get h m n = (
  ground (arith, find_handle-erase_handle h h m.handles),
  λ i ne. ground (arith, find_handle-erase_handle i h m.handles),
  λ i le. ground (arith, find_handle-erase_handle i h m.handles, n i le),
)
