-- ===== src/Pool/Sqlite.antt =====
-- src/sqlite/SQLiteConnectionPool.cpp: its operations, each of which runs under the lock.
use sql_fuse.Base.{
  Bool, List, [], if◌then◌else◌, length, ltb, min, none, pop_back, some, suc, ℕ, ◌&&◌, ◌++◌, ◌+◌,
  ◌<◌, ◌∷◌, ◌≡◌, ◌≤◌,
}
use sql_fuse.Pool.Steps.{occurs, take_out}

-- `SQLiteConnectionPool`, with the connections that are in use, which the class does not keep.
pub record SqlitePool : Type 0 where
  pub available : List ℕ
  pub created_count : ℕ
  pub in_use : List ℕ

unfoldable pub use_connection : ℕ → SqlitePool → SqlitePool
use_connection conn s = record s { in_use = conn ∷ s.in_use }

-- A new connection while fewer than the size of the pool were created: it is counted if it is valid;
-- else another one is made. After that a connection is made without being counted.
unfoldable pub create_connection : ℕ → ℕ → Bool → ℕ → SqlitePool → SqlitePool
unfolding use_connection
create_connection size first valid second s =
    if ltb s.created_count size && valid
    then use_connection first (record s { created_count = suc s.created_count })
    else use_connection second s

-- The connection at the back, or a new one.
unfoldable pub acquire : ℕ → ℕ → Bool → ℕ → SqlitePool → SqlitePool
unfolding create_connection use_connection
acquire size first valid second s = elim (pop_back s.available) [
  | none ↦ create_connection size first valid second s
  | some (rest, conn) ↦ use_connection conn (record s { available = rest })
]

-- A connection that is not valid, or finds the pool full, is destroyed.
unfoldable pub release : ℕ → ℕ → Bool → SqlitePool → SqlitePool
unfolding take_out
release size conn valid s =
    let returned = record s { in_use = take_out conn s.in_use } in
    if valid && ltb (length s.available) size
    then record returned { available = s.available ++ conn ∷ [] }
    else returned

unfoldable pub drain : SqlitePool → SqlitePool
drain s = record s { available = []; created_count = 0 }

abbrev pub initial : List ℕ → SqlitePool
initial conns = record { available = conns; created_count = length conns; in_use = [] }

abbrev pub IsNew : ℕ → SqlitePool → Type 0
IsNew conn s = occurs conn s.available + occurs conn s.in_use ≡ 0

-- The states that the constructor, with at most three connections, and any operations lead to. A new
-- connection is not one that is open, and what is released is in use.
pub data Opened (size : ℕ) : SqlitePool → Type 0 where
  opened :
      (conns : List ℕ)
      → length conns ≤ min size 3
      → ((c : ℕ) → occurs c conns ≤ 1)
      → Opened size (initial conns)
  acquired :
      (first second : ℕ) (valid : Bool) (s : SqlitePool)
      → IsNew first s
      → IsNew second s
      → Opened size s
      → Opened size (acquire size first valid second s)
  released :
      (conn : ℕ) (valid : Bool) (s : SqlitePool)
      → 0 < occurs conn s.in_use
      → Opened size s
      → Opened size (release size conn valid s)
  drained : (s : SqlitePool) → Opened size s → Opened size (drain s)
