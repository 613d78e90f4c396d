-- ===== src/Pool/Capacity.antt =====
-- How many connections the pool of src/oracle/OracleConnectionPool.cpp has: every step keeps the
-- counts.
use sql_fuse.Base.{
  List, add64, add64-mod, ap, arith, length, ltb→lt, refl, some, word, ℕ, ◌%◌, ◌+◌, ◌-◌, ◌<◌, ◌∙◌,
  ◌≡◌, ◌≤◌,
}
use sql_fuse.Pool.Steps.{occurs}
use sql_fuse.Pool.Guards.{both, by_when, by_some}
use sql_fuse.Pool.Oracle.{
  OraclePool, OracleEvent, enters, wakes, times_out, try_acquires, releases, shuts, drains, step,
  initial, Runs, stays, goes,
}
use sql_fuse.Pool.OracleSections.{
  IsSound, open_count, uncount_waiting-IsSound, acquire_loop-IsSound, try_acquire-IsSound,
  release_connection-IsSound, drain-IsSound,
}

woken-IsSound :
    (most : ℕ) (s : OraclePool)
    → 0 < s.sleeping
    → IsSound most 0 s
    → IsSound most 1 (record s { sleeping = s.sleeping - 1 })
woken-IsSound most s some_thread k = record {
  created = k.created;
  few = k.few;
  waiting = k.waiting ∙ ap (λ n. n % word) (omega (arith, some_thread));
  once = k.once;
}

entered-IsSound :
    (most : ℕ) (s : OraclePool)
    → IsSound most 0 s
    → IsSound most 1 (record s { waiting_count = add64 s.waiting_count 1 })
entered-IsSound most s k = record {
  created = k.created;
  few = k.few;
  waiting = rw k.waiting (add64-mod (s.sleeping + 0) 1 ∙ ap (λ n. n % word) (omega arith));
  once = k.once;
}

step-IsSound :
    (most : ℕ) (e : OracleEvent) (s s' : OraclePool)
    → IsSound most 0 s
    → step e s ≡ some s'
    → IsSound most 0 s'
unfolding step
step-IsSound most (enters valid made) s s' k h =
    by_when (IsSound most 0) _ s'
      (λ fresh.
        acquire_loop-IsSound most valid made (record s { waiting_count = add64 s.waiting_count 1 })
          fresh (entered-IsSound most s k))
      h
step-IsSound most (wakes valid made) s s' k h =
    by_when (IsSound most 0) _ s'
      (λ t.
        let (fresh, some_thread) = both _ _ t in
        acquire_loop-IsSound most valid made (record s { sleeping = s.sleeping - 1 }) fresh
          (woken-IsSound most s (ltb→lt 0 s.sleeping some_thread) k))
      h
step-IsSound most times_out s s' k h =
    by_when (IsSound most 0) _ s'
      (λ t.
        uncount_waiting-IsSound most (record s { sleeping = s.sleeping - 1 })
          (woken-IsSound most s (ltb→lt 0 s.sleeping t) k))
      h
step-IsSound most try_acquires s s' k h =
    by_some (IsSound most 0) s' (try_acquire-IsSound most s k) h
step-IsSound most (releases conn) s s' k h =
    by_when (IsSound most 0) _ s'
      (λ held. release_connection-IsSound most conn s (ltb→lt 0 (occurs conn s.leased) held) k) h
step-IsSound most shuts s s' k h =
    by_some (IsSound most 0) s'
      (record { created = k.created; few = k.few; waiting = k.waiting; once = k.once }) h
step-IsSound most drains s s' k h = by_when (IsSound most 0) _ s' (λ _. drain-IsSound most s k) h

Runs-IsSound : (most : ℕ) (s t : OraclePool) → IsSound most 0 s → Runs s t → IsSound most 0 t
Runs-IsSound most s _ k stays = k
Runs-IsSound most s _ k (goes e t u r h) = step-IsSound most e t u (Runs-IsSound most s t k r) h

-- In every state that the pool of Oracle connections can reach by steps of any threads, from a
-- constructor that created fewer than 2 ^ 64 connections, all different, the count of
-- connections is the number of those that are idle or in use, and at most the number of those
-- created at the start; the count of waiting threads is the number of those that wait, and no
-- connection is held twice.
pub initial-IsSound :
    (conns : List ℕ) (s : OraclePool)
    → length conns < word
    → ((c : ℕ) → occurs c conns ≤ 1)
    → Runs (initial conns) s
    → IsSound (length conns) 0 s
unfolding occurs
initial-IsSound conns s fits once r =
    Runs-IsSound (length conns) (initial conns) s
      (record {
        created = omega (arith, fits);
        few = omega arith;
        waiting = refl;
        once = λ c. omega (arith, once c);
      })
      r

-- From a state that the pool of Oracle connections can reach, from a constructor that created
-- fewer than 2 ^ 64 connections, all different, no steps of any threads make the number of open
-- connections larger: a connection that was lost and could not be made again is lost for good.
pub open_count-Runs :
    (conns : List ℕ) (s t : OraclePool)
    → length conns < word
    → ((c : ℕ) → occurs c conns ≤ 1)
    → Runs (initial conns) s
    → Runs s t
    → open_count t ≤ open_count s
open_count-Runs conns s t fits once r q =
    let k = initial-IsSound conns s fits once r in
    let kept =
      Runs-IsSound (open_count s) s t
        (record { created = k.created; few = omega arith; waiting = k.waiting; once = k.once }) q in
    kept.few
