-- ===== src/Pool/Sections.antt =====
-- The sections of src/mysql/MySQLConnectionPool.cpp under the lock keep the counts.
use sql_fuse.Base.{
  Bool, [], ap, arith, by_if, is_empty, length, length-append, ltb, not, refl, sub64, sub64-mod,
  suc, word, ℕ, ◌%◌, ◌&&◌, ◌+◌, ◌<◌, ◌||◌, ◌∙◌, ◌∷◌,
}
use sql_fuse.Pool.Types.{System}
use sql_fuse.Pool.Steps.{
  occurs, take_out, uncount_waiting, acquire_loop, try_acquire, release_connection, drain,
}
use sql_fuse.Pool.Counts.{
  IsBalanced, length-take_out, occurs-take_out, occurs-append, uncount_waiting-IsBalanced,
  take_front-IsBalanced, replacing-IsBalanced, connecting-IsBalanced, sleeping-IsBalanced,
}

pub acquire_loop-IsBalanced :
    (size : ℕ) (valid : Bool) (s : System)
    → IsBalanced 1 s
    → IsBalanced 0 (acquire_loop size valid s)
unfolding acquire_loop
acquire_loop-IsBalanced size valid s k =
    by_if (IsBalanced 0) (is_empty s.pool.available && not s.pool.shutdown)
      (λ _.
        by_if (IsBalanced 0) (ltb s.pool.created_count size) (λ _. connecting-IsBalanced s k)
          (λ _. sleeping-IsBalanced s k))
      (λ _.
        by_if (IsBalanced 0) s.pool.shutdown (λ _. uncount_waiting-IsBalanced 0 s k)
          (λ up.
            take_front-IsBalanced valid (λ t. record t { replacing = suc t.replacing }) 0
              s.pool.available (uncount_waiting s) (λ t. replacing-IsBalanced (suc t.replacing) 0 t)
              refl up (uncount_waiting-IsBalanced 0 s k)))

pub try_acquire-IsBalanced :
    (valid : Bool) (s : System) → IsBalanced 0 s → IsBalanced 0 (try_acquire valid s)
unfolding try_acquire
try_acquire-IsBalanced valid s k =
    by_if (IsBalanced 0) (s.pool.shutdown || is_empty s.pool.available) (λ _. k)
      (λ h.
        take_front-IsBalanced valid (λ t. t) 0 s.pool.available s (λ t b. b) refl
          (ground (arith, h)) k)

pub release_connection-IsBalanced :
    (conn : ℕ) (s : System)
    → 0 < occurs conn s.leased
    → IsBalanced 0 s
    → IsBalanced 0 (release_connection conn s)
unfolding release_connection occurs
release_connection-IsBalanced conn s held k =
    by_if (IsBalanced 0) s.pool.shutdown
      (λ _. record {
        created = rw k.created (
            ap (λ n. sub64 (n % word) 1) (omega (arith, length-take_out conn s.leased held))
            ∙ sub64-mod (length s.pool.available + length (take_out conn s.leased)) 1);
        waiting = k.waiting;
        once = λ c. omega (arith, k.once c, occurs-take_out c conn s.leased held);
        closed = k.closed;
      })
      (λ up. record {
        created =
            k.created
            ∙ ap (λ n. n % word)
                (omega (
                  arith,
                  length-take_out conn s.leased held,
                  length-append s.pool.available (conn ∷ []),
                ));
        waiting = k.waiting;
        once = λ c. ground (
          arith,
          k.once c,
          occurs-take_out c conn s.leased held,
          occurs-append c s.pool.available (conn ∷ []),
        );
        closed = λ h. absurd (ground (arith, h, up));
      })

pub drain-IsBalanced : (s : System) → IsBalanced 0 s → IsBalanced 0 (drain s)
unfolding drain occurs
drain-IsBalanced s k = record {
  created = rw k.created (
      ap (λ n. sub64 (n % word) (length s.pool.available)) (omega arith)
      ∙ sub64-mod (length s.leased) (length s.pool.available)
      ∙ ap (λ n. n % word) (omega arith));
  waiting = k.waiting;
  once = λ c. omega (arith, k.once c);
  closed = λ h. refl;
}
