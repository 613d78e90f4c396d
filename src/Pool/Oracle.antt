-- ===== src/Pool/Oracle.antt =====
-- src/oracle/OracleConnectionPool.cpp: the sections that run under the lock, as steps of the system, and
-- the flag that `drain` sets without it. `none` is a step that no thread can take.
use sql_fuse.Base.{
  Bool, List, Option, [], add64, drop, false, if◌then◌else◌, is_empty, length, ltb, none, not, some,
  sub64, suc, true, ℕ, ◌&&◌, ◌++◌, ◌+◌, ◌-◌, ◌==◌, ◌∷◌, ◌≡◌,
}
use sql_fuse.Pool.Steps.{occurs, take_out, when}

-- `OracleConnectionPool`, with the number of threads that wait in `acquire`, and the connections that
-- are in use, which the class does not keep.
pub record OraclePool : Type 0 where
  pub available : List ℕ
  pub created_count : ℕ
  pub waiting_count : ℕ
  pub shutdown : Bool
  pub sleeping : ℕ
  pub leased : List ℕ

-- What a thread does next: whether the connection in front is valid, and the one that is created in
-- its place, `none` where this throws.
pub data OracleEvent : Type 0 where
  enters wakes : Bool → Option ℕ → OracleEvent
  times_out : OracleEvent
  try_acquires : OracleEvent
  releases : ℕ → OracleEvent
  shuts : OracleEvent
  drains : OracleEvent

abbrev pub use_connection : ℕ → OraclePool → OraclePool
use_connection conn s = record s { leased = conn ∷ s.leased }

-- `conn = createConnection(); ++m_createdCount;` or the end of `acquire` with no connection.
unfoldable pub recreate : Option ℕ → OraclePool → OraclePool
recreate none s = s
recreate (some conn) s = use_connection conn (record s { created_count = add64 s.created_count 1 })

-- The front connection is taken, and another one made in its place if it is not valid.
unfoldable pub take_valid : Bool → Option ℕ → List ℕ → OraclePool → OraclePool
unfolding recreate
take_valid valid made [] s = s
take_valid valid made (conn ∷ rest) s =
    let popped = record s { available = rest } in
    if valid
    then use_connection conn popped
    else recreate made (record popped { created_count = sub64 s.created_count 1 })

-- The rest of `acquire` from the test of its loop.
unfoldable pub acquire_loop : Bool → Option ℕ → OraclePool → OraclePool
unfolding take_valid
acquire_loop valid made s =
    if is_empty s.available && not s.shutdown
    then record s { sleeping = suc s.sleeping }
    else let counted = record s { waiting_count = sub64 s.waiting_count 1 } in
      if s.shutdown then counted else take_valid valid made s.available counted

unfoldable pub try_acquire : OraclePool → OraclePool
unfolding take_valid
try_acquire s = if s.shutdown then s else take_valid true none s.available s

-- The connection is one that is in use.
unfoldable pub release_connection : ℕ → OraclePool → OraclePool
unfolding take_out
release_connection conn s =
    let returned = record s { leased = take_out conn s.leased } in
    if s.shutdown
    then record returned { created_count = sub64 s.created_count 1 }
    else record returned { available = s.available ++ conn ∷ [] }

-- The section of `drain` under the lock.
unfoldable pub drain : OraclePool → OraclePool
drain s = record s { available = []; created_count = sub64 s.created_count (length s.available) }

-- A connection that is made when the front one was destroyed is not one that is open.
unfoldable pub is_fresh : Option ℕ → List ℕ → List ℕ → Bool
unfolding occurs
is_fresh none available leased = true
is_fresh (some conn) available leased = (occurs conn (drop 1 available) + occurs conn leased) == 0

unfoldable pub step : OracleEvent → OraclePool → Option OraclePool
unfolding acquire_loop try_acquire release_connection drain is_fresh
step (enters valid made) s =
    when (is_fresh made s.available s.leased)
      (acquire_loop valid made (record s { waiting_count = add64 s.waiting_count 1 }))
step (wakes valid made) s =
    when (is_fresh made s.available s.leased && ltb 0 s.sleeping)
      (acquire_loop valid made (record s { sleeping = s.sleeping - 1 }))
step times_out s =
    when (ltb 0 s.sleeping)
      (record s { sleeping = s.sleeping - 1; waiting_count = sub64 s.waiting_count 1 })
step try_acquires s = some (try_acquire s)
step (releases conn) s = when (ltb 0 (occurs conn s.leased)) (release_connection conn s)
step shuts s = some (record s { shutdown = true })
step drains s = when s.shutdown (drain s)

-- The constructor, with the connections that it could create.
abbrev pub initial : List ℕ → OraclePool
initial conns = record {
  available = conns;
  created_count = length conns;
  waiting_count = 0;
  shutdown = false;
  sleeping = 0;
  leased = [];
}

-- The states that steps of any threads lead to.
pub data Runs (s : OraclePool) : OraclePool → Type 0 where
  stays : Runs s s
  goes : (e : OracleEvent) (t u : OraclePool) → Runs s t → step e t ≡ some u → Runs s u
