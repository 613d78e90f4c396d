-- ===== src/Pool/Types.antt =====
-- The state of `MySQLConnectionPool` (include/mysql/MySQLConnectionPool.hpp), and where the threads
-- are that use it. A connection is named by a number, its address.
use sql_fuse.Base.{Bool, List, ℕ}

pub record ConnectionPool : Type 0 where
  pub available : List ℕ
  pub created_count : ℕ
  pub waiting_count : ℕ
  pub shutdown : Bool

-- The threads in `acquire` that create a connection without the lock, those that wait on the
-- condition variable and those that create a connection for one that was not valid, and the
-- connections that are in use.
pub record System : Type 0 where
  pub pool : ConnectionPool
  pub connecting : ℕ
  pub sleeping : ℕ
  pub replacing : ℕ
  pub leased : List ℕ

-- What a thread does next. `valid` is what `validateConnection` answers, should it be asked.
pub data Event : Type 0 where
  enters : Bool → Event
  connects : ℕ → Event
  connect_fails : Event
  wakes : Bool → Event
  times_out : Event
  replaces : ℕ → Event
  replace_fails : Event
  try_acquires : Bool → Event
  releases : ℕ → Event
  drains : Event
