-- ===== src/Pool/Steps.antt =====
-- The sections of src/mysql/MySQLConnectionPool.cpp that run under the lock, and the attempts to
-- connect between them, as steps of the system. `none` is a step that no thread can take.
use sql_fuse.Base.{
  Bool, List, Option, [], add64, false, if◌then◌else◌, is_empty, length, ltb, min, none, not, some,
  sub64, suc, true, ℕ, ◌&&◌, ◌++◌, ◌+◌, ◌-◌, ◌/◌, ◌==◌, ◌||◌, ◌∷◌, ◌≡◌, ◌≤◌,
}
use sql_fuse.Pool.Types.{
  System, Event, enters, connects, connect_fails, wakes, times_out, replaces, replace_fails,
  try_acquires, releases, drains,
}

unfoldable pub occurs : ℕ → List ℕ → ℕ
occurs c [] = 0
occurs c (d ∷ l) = if d == c then suc (occurs c l) else occurs c l

-- A list without one occurrence of a number.
unfoldable pub take_out : ℕ → List ℕ → List ℕ
take_out c [] = []
take_out c (d ∷ l) = if d == c then l else d ∷ take_out c l

abbrev pub lease : ℕ → System → System
lease conn s = record s { leased = conn ∷ s.leased }

-- `m_createdCount++` and `m_createdCount--`.
abbrev pub count_created : System → System
count_created s = record s {
  pool = record (s.pool) { created_count = add64 s.pool.created_count 1 };
}

abbrev pub uncount_created : System → System
uncount_created s = record s {
  pool = record (s.pool) { created_count = sub64 s.pool.created_count 1 };
}

abbrev pub count_waiting : System → System
count_waiting s = record s {
  pool = record (s.pool) { waiting_count = add64 s.pool.waiting_count 1 };
}

abbrev pub uncount_waiting : System → System
uncount_waiting s = record s {
  pool = record (s.pool) { waiting_count = sub64 s.pool.waiting_count 1 };
}

-- The end of `acquire` and of `tryAcquire`: the front connection is taken, and is destroyed if it is
-- not valid.
unfoldable pub take_front : Bool → (System → System) → List ℕ → System → System
take_front valid otherwise [] s = s
take_front valid otherwise (conn ∷ rest) s =
    let popped = record s { pool = record (s.pool) { available = rest } } in
    if valid then lease conn popped else otherwise (uncount_created popped)

-- The rest of `acquire` from the test of its loop, up to the next point where the lock is given up.
unfoldable pub acquire_loop : ℕ → Bool → System → System
unfolding take_front add64 sub64
acquire_loop size valid s =
    if is_empty s.pool.available && not s.pool.shutdown
    then if ltb s.pool.created_count size
      then record s { connecting = suc s.connecting }
      else record s { sleeping = suc s.sleeping }
    else if s.pool.shutdown
    then uncount_waiting s
    else take_front valid (λ t. record t { replacing = suc t.replacing }) s.pool.available
        (uncount_waiting s)

unfoldable pub try_acquire : Bool → System → System
unfolding take_front
try_acquire valid s =
    if s.pool.shutdown || is_empty s.pool.available
    then s
    else take_front valid (λ t. t) s.pool.available s

-- `releaseConnection`; the connection is one that is in use.
unfoldable pub release_connection : ℕ → System → System
unfolding take_out
release_connection conn s =
    let returned = record s { leased = take_out conn s.leased } in
    if s.pool.shutdown
    then uncount_created returned
    else record returned { pool = record (s.pool) { available = s.pool.available ++ conn ∷ [] } }

unfoldable pub drain : System → System
drain s = record s {
  pool = record (s.pool) {
    available = [];
    created_count = sub64 s.pool.created_count (length s.pool.available);
    shutdown = true;
  };
}

-- The address of a new connection is not the address of one that is open.
unfoldable pub is_fresh : ℕ → System → Bool
is_fresh conn s = (occurs conn s.pool.available + occurs conn s.leased) == 0

abbrev pub when {ℓ} : {A : Type ℓ} → Bool → A → Option A
when test s = if test then some s else none

unfoldable pub step : ℕ → Event → System → Option System
unfolding acquire_loop try_acquire release_connection drain is_fresh
step size (enters valid) s = some (acquire_loop size valid (count_waiting s))
step size (connects conn) s =
    when (ltb 0 s.connecting && is_fresh conn s)
      (lease conn (uncount_waiting (count_created (record s { connecting = s.connecting - 1 }))))
step size connect_fails s =
    when (ltb 0 s.connecting)
      (record s { connecting = s.connecting - 1; sleeping = suc s.sleeping })
step size (wakes valid) s =
    when (ltb 0 s.sleeping) (acquire_loop size valid (record s { sleeping = s.sleeping - 1 }))
step size times_out s =
    when (ltb 0 s.sleeping) (uncount_waiting (record s { sleeping = s.sleeping - 1 }))
step size (replaces conn) s =
    when (ltb 0 s.replacing && is_fresh conn s)
      (lease conn (count_created (record s { replacing = s.replacing - 1 })))
step size replace_fails s = when (ltb 0 s.replacing) (record s { replacing = s.replacing - 1 })
step size (try_acquires valid) s = some (try_acquire valid s)
step size (releases conn) s = when (ltb 0 (occurs conn s.leased)) (release_connection conn s)
step size drains s = some (drain s)

-- The constructor, with the connections that it could create.
abbrev pub initial : List ℕ → System
initial conns = record {
  pool = record {
    available = conns;
    created_count = length conns;
    waiting_count = 0;
    shutdown = false;
  };
  connecting = 0;
  sleeping = 0;
  replacing = 0;
  leased = [];
}

-- The states that some sequence of steps leads to, after a constructor that created at most half the
-- size of the pool and at most three connections, all different.
pub data Reachable (size : ℕ) : System → Type 0 where
  started :
      (conns : List ℕ)
      → length conns ≤ min (size / 2) 3
      → ((c : ℕ) → occurs c conns ≤ 1)
      → Reachable size (initial conns)
  stepped :
      (e : Event) (s s' : System) → Reachable size s → step size e s ≡ some s' → Reachable size s'
