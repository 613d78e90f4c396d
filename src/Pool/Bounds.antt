-- ===== src/Pool/Bounds.antt =====
-- The bounds of src/sqlite/SQLiteConnectionPool.cpp.
use sql_fuse.Base.{
  Bool, [], arith, by_if, inl, inr, length, length-append, ltb, pop_back-cases, suc, ℕ, ◌&&◌, ◌+◌,
  ◌<◌, ◌∷◌, ◌≤◌,
}
use sql_fuse.Pool.Steps.{occurs}
use sql_fuse.Pool.Counts.{occurs-append, occurs-take_out}
use sql_fuse.Pool.Sqlite.{
  SqlitePool, use_connection, create_connection, acquire, release, drain, IsNew, Opened, opened,
  acquired, released, drained,
}

-- The pool counts and keeps no more connections than its size, and no connection is held twice.
pub record IsBounded (size : ℕ) (s : SqlitePool) : Type 0 where
  pub counted : s.created_count ≤ size
  pub idle : length s.available ≤ size
  pub once : (c : ℕ) → occurs c s.available + occurs c s.in_use ≤ 1

use_connection-IsBounded :
    (size conn : ℕ) (s : SqlitePool)
    → IsNew conn s
    → IsBounded size s
    → IsBounded size (use_connection conn s)
unfolding use_connection occurs
use_connection-IsBounded size conn s new k = record {
  counted = k.counted;
  idle = k.idle;
  once = λ c. ground (arith, k.once c, new);
}

create_connection-IsBounded :
    (size first second : ℕ) (valid : Bool) (s : SqlitePool)
    → IsNew first s
    → IsNew second s
    → IsBounded size s
    → IsBounded size (create_connection size first valid second s)
unfolding create_connection
create_connection-IsBounded size first second valid s new₁ new₂ k =
    by_if (IsBounded size) (ltb s.created_count size && valid)
      (λ room.
        use_connection-IsBounded size first (record s { created_count = suc s.created_count }) new₁
          (record { counted = ground (arith, room); idle = k.idle; once = k.once }))
      (λ _. use_connection-IsBounded size second s new₂ k)

acquire-IsBounded :
    (size first second : ℕ) (valid : Bool) (s : SqlitePool)
    → IsNew first s
    → IsNew second s
    → IsBounded size s
    → IsBounded size (acquire size first valid second s)
unfolding acquire use_connection occurs
acquire-IsBounded size first second valid s new₁ new₂ k = elim (pop_back-cases s.available) [
  | inl (_, e) ↦ rw (e, acquire) (create_connection-IsBounded size first second valid s new₁ new₂ k)
  | inr (rest, conn, split, e) ↦
      rw (e, acquire)
        (record {
          counted = k.counted;
          idle = omega (arith, length-append rest (conn ∷ []), rw split at k.idle);
          once = λ c. ground (arith, rw split at (k.once c), occurs-append c rest (conn ∷ []));
        })
]

release-IsBounded :
    (size conn : ℕ) (valid : Bool) (s : SqlitePool)
    → 0 < occurs conn s.in_use
    → IsBounded size s
    → IsBounded size (release size conn valid s)
unfolding release occurs
release-IsBounded size conn valid s held k =
    by_if (IsBounded size) (valid && ltb (length s.available) size)
      (λ room. record {
        counted = k.counted;
        idle = ground (arith, room, length-append s.available (conn ∷ []));
        once = λ c. ground (
          arith,
          k.once c,
          occurs-append c s.available (conn ∷ []),
          occurs-take_out c conn s.in_use held,
        );
      })
      (λ _. record {
        counted = k.counted;
        idle = k.idle;
        once = λ c. omega (arith, k.once c, occurs-take_out c conn s.in_use held);
      })

-- In every state that the pool of SQLite connections can reach, where a new connection is not
-- one that is open and what is released is in use, the pool counts and keeps no more connections
-- than its size, and no connection is held twice.
pub Opened-IsBounded : (size : ℕ) (s : SqlitePool) → Opened size s → IsBounded size s
unfolding drain occurs
Opened-IsBounded size _ (opened conns few once) = record {
  counted = omega (arith, few);
  idle = omega (arith, few);
  once = λ c. omega (arith, once c);
}
Opened-IsBounded size _ (acquired first second valid s new₁ new₂ r) =
    acquire-IsBounded size first second valid s new₁ new₂ (Opened-IsBounded size s r)
Opened-IsBounded size _ (released conn valid s held r) =
    release-IsBounded size conn valid s held (Opened-IsBounded size s r)
Opened-IsBounded size _ (drained s r) =
    let k = Opened-IsBounded size s r in
    record { counted = omega arith; idle = omega arith; once = λ c. omega (arith, k.once c) }
