-- ===== src/Pool/Balance.antt =====
-- The counts of src/mysql/MySQLConnectionPool.cpp: every step keeps them.
use sql_fuse.Base.{arith, ltb→lt, refl, some, ℕ, ◌-◌, ◌≡◌}
use sql_fuse.Pool.Types.{
  System, Event, enters, connects, connect_fails, wakes, times_out, replaces, replace_fails,
  try_acquires, releases, drains,
}
use sql_fuse.Pool.Steps.{
  occurs, lease, count_waiting, count_created, step, Reachable, started, stepped,
}
use sql_fuse.Pool.Guards.{both, by_when, by_some}
use sql_fuse.Pool.Counts.{
  IsBalanced, uncount_waiting-IsBalanced, count_waiting-IsBalanced, replacing-IsBalanced,
  sleeping-IsBalanced, lease_created-IsBalanced, connected-IsBalanced, woken-IsBalanced,
}
use sql_fuse.Pool.Sections.{
  acquire_loop-IsBalanced, try_acquire-IsBalanced, release_connection-IsBalanced, drain-IsBalanced,
}

step-IsBalanced :
    (size : ℕ) (e : Event) (s s' : System)
    → IsBalanced 0 s
    → step size e s ≡ some s'
    → IsBalanced 0 s'
unfolding step
step-IsBalanced size (enters valid) s s' k h =
    by_some (IsBalanced 0) s'
      (acquire_loop-IsBalanced size valid (count_waiting s) (count_waiting-IsBalanced 0 s k)) h
step-IsBalanced size (connects conn) s s' k h =
    by_when (IsBalanced 0) _ s'
      (λ t.
        let (some_thread, fresh) = both _ _ t in
        let one = record s { connecting = s.connecting - 1 } in
        uncount_waiting-IsBalanced 0 (lease conn (count_created one)) (
          lease_created-IsBalanced conn 1 one fresh
            (connected-IsBalanced s (ltb→lt 0 s.connecting some_thread) k)))
      h
step-IsBalanced size connect_fails s s' k h =
    by_when (IsBalanced 0) _ s'
      (λ t.
        sleeping-IsBalanced (record s { connecting = s.connecting - 1 })
          (connected-IsBalanced s (ltb→lt 0 s.connecting t) k))
      h
step-IsBalanced size (wakes valid) s s' k h =
    by_when (IsBalanced 0) _ s'
      (λ t.
        acquire_loop-IsBalanced size valid (record s { sleeping = s.sleeping - 1 })
          (woken-IsBalanced s (ltb→lt 0 s.sleeping t) k))
      h
step-IsBalanced size times_out s s' k h =
    by_when (IsBalanced 0) _ s'
      (λ t.
        uncount_waiting-IsBalanced 0 (record s { sleeping = s.sleeping - 1 })
          (woken-IsBalanced s (ltb→lt 0 s.sleeping t) k))
      h
step-IsBalanced size (replaces conn) s s' k h =
    by_when (IsBalanced 0) _ s'
      (λ t.
        lease_created-IsBalanced conn 0 (record s { replacing = s.replacing - 1 }) (both _ _ t).1
          (replacing-IsBalanced (s.replacing - 1) 0 s k))
      h
step-IsBalanced size replace_fails s s' k h =
    by_when (IsBalanced 0) _ s' (λ t. replacing-IsBalanced (s.replacing - 1) 0 s k) h
step-IsBalanced size (try_acquires valid) s s' k h =
    by_some (IsBalanced 0) s' (try_acquire-IsBalanced valid s k) h
step-IsBalanced size (releases conn) s s' k h =
    by_when (IsBalanced 0) _ s'
      (λ held. release_connection-IsBalanced conn s (ltb→lt 0 (occurs conn s.leased) held) k) h
step-IsBalanced size drains s s' k h = by_some (IsBalanced 0) s' (drain-IsBalanced s k) h

-- In every state that the pool of connections can reach by steps of any threads, where a new
-- connection has an address that no open one has, the count of connections is the number of
-- those that are idle or in use, the count of waiting threads is the number of those that wait
-- or connect, no connection is held twice, and a pool that is shut down holds none.
pub Reachable-IsBalanced : (size : ℕ) (s : System) → Reachable size s → IsBalanced 0 s
unfolding occurs
Reachable-IsBalanced size _ (started conns few once) = record {
  created = omega (arith, few);
  waiting = refl;
  once = λ c. omega (arith, once c);
  closed = λ h. absurd cc;
}
Reachable-IsBalanced size _ (stepped e s s' r h) =
    step-IsBalanced size e s s' (Reachable-IsBalanced size s r) h
