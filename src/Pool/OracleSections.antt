-- ===== src/Pool/OracleSections.antt =====
-- The counts of src/oracle/OracleConnectionPool.cpp: the sections under the lock keep them.
use sql_fuse.Base.{
  Bool, List, Option, [], add64, add64-mod, ap, arith, by_if, false, is_empty, length,
  length-append, none, not, refl, some, sub64, sub64-mod, true, word, ℕ, ◌%◌, ◌&&◌, ◌+◌, ◌<◌, ◌∙◌,
  ◌∷◌, ◌≡◌, ◌≤◌,
}
use sql_fuse.Pool.Steps.{occurs, take_out}
use sql_fuse.Pool.Counts.{occurs-append, occurs-take_out, length-take_out, uncount}
use sql_fuse.Pool.Oracle.{
  OraclePool, recreate, take_valid, acquire_loop, try_acquire, release_connection, drain, is_fresh,
}

abbrev pub open_count : OraclePool → ℕ
open_count s = length s.available + length s.leased

-- The count of connections is the number of those that are idle or in use, of which there are at
-- most `most`, the count of waiting threads is the number of those that wait or hold the lock in
-- `acquire` (`busy`), and no connection is held twice.
pub record IsSound (most busy : ℕ) (s : OraclePool) : Type 0 where
  pub created : s.created_count ≡ open_count s % word
  pub few : open_count s ≤ most
  pub waiting : s.waiting_count ≡ (s.sleeping + busy) % word
  pub once : (c : ℕ) → occurs c s.available + occurs c s.leased ≤ 1

pub take_valid-IsSound :
    (most busy : ℕ) (valid : Bool) (made : Option ℕ) (l : List ℕ) (s : OraclePool)
    → s.available ≡ l
    → is_fresh made s.available s.leased ≡ true
    → IsSound most busy s
    → IsSound most busy (take_valid valid made l s)
unfolding take_valid recreate occurs is_fresh
take_valid-IsSound most busy valid made [] s e fresh k = k
take_valid-IsSound most busy true made (conn ∷ rest) s e fresh k = record {
  created = k.created ∙ rw e (omega arith);
  few = omega (arith, rw e at k.few);
  waiting = k.waiting;
  once = λ c. ground (arith, rw e at (k.once c));
}
take_valid-IsSound most busy false none (conn ∷ rest) s e fresh k = record {
  created = rw (k.created, e) (uncount (length rest) (length s.leased));
  few = omega (arith, rw e at k.few);
  waiting = k.waiting;
  once = λ c. ground (arith, rw e at (k.once c));
}
take_valid-IsSound most busy false (some new) (conn ∷ rest) s e fresh k = record {
  created =
      rw (k.created, e)
        (ap (λ n. add64 n 1) (uncount (length rest) (length s.leased))
          ∙ add64-mod (length rest + length s.leased) 1
          ∙ ap (λ n. n % word) (omega arith));
  few = omega (arith, rw e at k.few);
  waiting = k.waiting;
  once = λ c. ground (arith, rw e at (k.once c), rw e at fresh);
}

pub uncount_waiting-IsSound :
    (most : ℕ) (s : OraclePool)
    → IsSound most 1 s
    → IsSound most 0 (record s { waiting_count = sub64 s.waiting_count 1 })
uncount_waiting-IsSound most s k = record {
  created = k.created;
  few = k.few;
  waiting = rw k.waiting (sub64-mod s.sleeping 1 ∙ ap (λ n. n % word) (omega arith));
  once = k.once;
}

pub acquire_loop-IsSound :
    (most : ℕ) (valid : Bool) (made : Option ℕ) (s : OraclePool)
    → is_fresh made s.available s.leased ≡ true
    → IsSound most 1 s
    → IsSound most 0 (acquire_loop valid made s)
unfolding acquire_loop
acquire_loop-IsSound most valid made s fresh k =
    by_if (IsSound most 0) (is_empty s.available && not s.shutdown)
      (λ _. record {
        created = k.created;
        few = k.few;
        waiting = k.waiting ∙ ap (λ n. n % word) (omega arith);
        once = k.once;
      })
      (λ _.
        by_if (IsSound most 0) s.shutdown (λ _. uncount_waiting-IsSound most s k)
          (λ _.
            take_valid-IsSound most 0 valid made s.available _ refl fresh
              (uncount_waiting-IsSound most s k)))

pub release_connection-IsSound :
    (most conn : ℕ) (s : OraclePool)
    → 0 < occurs conn s.leased
    → IsSound most 0 s
    → IsSound most 0 (release_connection conn s)
unfolding release_connection occurs
release_connection-IsSound most conn s held k =
    by_if (IsSound most 0) s.shutdown
      (λ _. record {
        created = rw k.created (
            ap (λ n. sub64 (n % word) 1) (omega (arith, length-take_out conn s.leased held))
            ∙ sub64-mod (length s.available + length (take_out conn s.leased)) 1);
        few = omega (arith, k.few, length-take_out conn s.leased held);
        waiting = k.waiting;
        once = λ c. omega (arith, k.once c, occurs-take_out c conn s.leased held);
      })
      (λ up. record {
        created =
            k.created
            ∙ ap (λ n. n % word)
                (omega (
                  arith,
                  length-take_out conn s.leased held,
                  length-append s.available (conn ∷ []),
                ));
        few = omega (
          arith,
          k.few,
          length-take_out conn s.leased held,
          length-append s.available (conn ∷ []),
        );
        waiting = k.waiting;
        once = λ c. ground (
          arith,
          k.once c,
          occurs-take_out c conn s.leased held,
          occurs-append c s.available (conn ∷ []),
        );
      })

pub try_acquire-IsSound :
    (most : ℕ) (s : OraclePool) → IsSound most 0 s → IsSound most 0 (try_acquire s)
unfolding try_acquire is_fresh
try_acquire-IsSound most s k =
    by_if (IsSound most 0) s.shutdown (λ _. k)
      (λ _. take_valid-IsSound most 0 true none s.available s refl refl k)

pub drain-IsSound : (most : ℕ) (s : OraclePool) → IsSound most 0 s → IsSound most 0 (drain s)
unfolding drain occurs
drain-IsSound most s k = record {
  created = rw k.created (
      ap (λ n. sub64 (n % word) (length s.available)) (omega arith)
      ∙ sub64-mod (length s.leased) (length s.available)
      ∙ ap (λ n. n % word) (omega arith));
  few = omega (arith, k.few);
  waiting = k.waiting;
  once = λ c. omega (arith, k.once c);
}
