-- ===== src/Pool/Counts.antt =====
-- The counts of src/mysql/MySQLConnectionPool.cpp, and what single changes of the state do to them.
use sql_fuse.Base.{
  Bool, List, [], add64-mod, ap, arith, false, if◌then◌else◌, length, sub64, sub64-mod, suc, true,
  word, ℕ, ◌%◌, ◌++◌, ◌+◌, ◌-◌, ◌<◌, ◌==◌, ◌∙◌, ◌∷◌, ◌≡◌, ◌≤◌,
}
use sql_fuse.Pool.Types.{System}
use sql_fuse.Pool.Steps.{
  occurs, take_out, lease, count_waiting, uncount_waiting, count_created, take_front, is_fresh,
}

-- `m_createdCount` is the number of open connections and `m_waitingCount` the number of the threads
-- that wait or connect or hold the lock in `acquire` (`busy`), no connection is held twice, and there is none in a pool that is shut down.
pub record IsBalanced (busy : ℕ) (s : System) : Type 0 where
  pub created : s.pool.created_count ≡ (length s.pool.available + length s.leased) % word
  pub waiting : s.pool.waiting_count ≡ (s.connecting + s.sleeping + busy) % word
  pub once : (c : ℕ) → occurs c s.pool.available + occurs c s.leased ≤ 1
  pub closed : s.pool.shutdown ≡ true → s.pool.available ≡ []

pub length-take_out : (c : ℕ) (l : List ℕ) → 0 < occurs c l → length l ≡ suc (length (take_out c l))
unfolding occurs take_out
length-take_out c [] h = ground arith
length-take_out c (d ∷ l) h = ground (arith, length-take_out c l)

pub occurs-take_out :
    (b c : ℕ) (l : List ℕ)
    → 0 < occurs c l
    → occurs b l ≡ occurs b (take_out c l) + (if c == b then 1 else 0)
unfolding occurs take_out
occurs-take_out b c [] h = ground arith
occurs-take_out b c (d ∷ l) h = ground (arith, occurs-take_out b c l)

pub occurs-append : (c : ℕ) (l m : List ℕ) → occurs c (l ++ m) ≡ occurs c l + occurs c m
unfolding occurs
occurs-append c [] m = ground arith
occurs-append c (d ∷ l) m = ground (arith, occurs-append c l m)

pub uncount : (a b : ℕ) → sub64 ((suc a + b) % word) 1 ≡ (a + b) % word
uncount a b = ap (λ n. sub64 (n % word) 1) (omega arith) ∙ sub64-mod (a + b) 1

pub uncount_waiting-IsBalanced :
    (busy : ℕ) (s : System) → IsBalanced (suc busy) s → IsBalanced busy (uncount_waiting s)
uncount_waiting-IsBalanced busy s k = record {
  created = k.created;
  waiting =
      rw k.waiting (
        ap (λ n. sub64 (n % word) 1) (omega arith)
        ∙ sub64-mod (s.connecting + s.sleeping + busy) 1);
  once = k.once;
  closed = k.closed;
}

pub count_waiting-IsBalanced :
    (busy : ℕ) (s : System) → IsBalanced busy s → IsBalanced (suc busy) (count_waiting s)
count_waiting-IsBalanced busy s k = record {
  created = k.created;
  waiting =
      rw k.waiting
        (add64-mod (s.connecting + s.sleeping + busy) 1 ∙ ap (λ n. n % word) (omega arith));
  once = k.once;
  closed = k.closed;
}

pub take_front-IsBalanced :
    (valid : Bool) (otherwise : System → System) (busy : ℕ) (l : List ℕ) (s : System)
    → ((t : System) → IsBalanced busy t → IsBalanced busy (otherwise t))
    → s.pool.available ≡ l
    → s.pool.shutdown ≡ false
    → IsBalanced busy s
    → IsBalanced busy (take_front valid otherwise l s)
unfolding take_front occurs
take_front-IsBalanced valid otherwise busy [] s keeps e up k = k
take_front-IsBalanced true otherwise busy (conn ∷ rest) s keeps e up k = record {
  created = k.created ∙ rw e (omega arith);
  waiting = k.waiting;
  once = λ c. ground (arith, rw e at (k.once c));
  closed = λ h. absurd (ground (arith, h, up));
}
take_front-IsBalanced false otherwise busy (conn ∷ rest) s keeps e up k = keeps _ (record {
  created = rw (k.created, e) (uncount (length rest) (length s.leased));
  waiting = k.waiting;
  once = λ c. ground (arith, rw e at (k.once c));
  closed = λ h. absurd (ground (arith, h, up));
})

pub replacing-IsBalanced :
    (n busy : ℕ) (s : System) → IsBalanced busy s → IsBalanced busy (record s { replacing = n })
replacing-IsBalanced n busy s k = record {
  created = k.created;
  waiting = k.waiting;
  once = k.once;
  closed = k.closed;
}

pub connecting-IsBalanced :
    (s : System) → IsBalanced 1 s → IsBalanced 0 (record s { connecting = suc s.connecting })
connecting-IsBalanced s k = record {
  created = k.created;
  waiting = k.waiting ∙ ap (λ n. n % word) (omega arith);
  once = k.once;
  closed = k.closed;
}

pub sleeping-IsBalanced :
    (s : System) → IsBalanced 1 s → IsBalanced 0 (record s { sleeping = suc s.sleeping })
sleeping-IsBalanced s k = record {
  created = k.created;
  waiting = k.waiting ∙ ap (λ n. n % word) (omega arith);
  once = k.once;
  closed = k.closed;
}

pub lease_created-IsBalanced :
    (conn : ℕ) (busy : ℕ) (s : System)
    → is_fresh conn s ≡ true
    → IsBalanced busy s
    → IsBalanced busy (lease conn (count_created s))
unfolding is_fresh occurs
lease_created-IsBalanced conn busy s fresh k = record {
  created =
      rw k.created (
        add64-mod (length s.pool.available + length s.leased) 1 ∙ ap (λ n. n % word) (omega arith));
  waiting = k.waiting;
  once = λ c. ground (arith, k.once c, fresh);
  closed = k.closed;
}

pub connected-IsBalanced :
    (s : System)
    → 0 < s.connecting
    → IsBalanced 0 s
    → IsBalanced 1 (record s { connecting = s.connecting - 1 })
connected-IsBalanced s some_thread k = record {
  created = k.created;
  waiting = k.waiting ∙ ap (λ n. n % word) (omega (arith, some_thread));
  once = k.once;
  closed = k.closed;
}

pub woken-IsBalanced :
    (s : System)
    → 0 < s.sleeping
    → IsBalanced 0 s
    → IsBalanced 1 (record s { sleeping = s.sleeping - 1 })
woken-IsBalanced s some_thread k = record {
  created = k.created;
  waiting = k.waiting ∙ ap (λ n. n % word) (omega (arith, some_thread));
  once = k.once;
  closed = k.closed;
}
