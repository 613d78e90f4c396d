-- ===== src/Pool/Postgresql.antt =====
-- src/postgresql/PostgreSQLConnectionPool.cpp. The sections under the lock of its `acquire`, `tryAcquire`,
-- `releaseConnection` and `drain` are those of src/mysql/MySQLConnectionPool.cpp, line by line; how a
-- connection is made and validated differs, and is an outcome of the steps.
use sql_fuse.Base.{Bool, List, Option, ℕ}
use sql_fuse.Pool.Types.{System, Event}
use sql_fuse.Pool.Steps

unfoldable acquire_loop : ℕ → Bool → System → System
unfolding Steps.acquire_loop
acquire_loop size valid s = Steps.acquire_loop size valid s

unfoldable try_acquire : Bool → System → System
unfolding Steps.try_acquire
try_acquire valid s = Steps.try_acquire valid s

unfoldable release_connection : ℕ → System → System
unfolding Steps.release_connection
release_connection conn s = Steps.release_connection conn s

unfoldable drain : System → System
unfolding Steps.drain
drain s = Steps.drain s

unfoldable step : ℕ → Event → System → Option System
unfolding Steps.step
step size e s = Steps.step size e s

abbrev initial : List ℕ → System
initial conns = Steps.initial conns
