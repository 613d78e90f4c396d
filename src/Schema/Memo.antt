-- ===== src/Schema/Memo.antt =====
-- What the cached lists promise: a list that is kept, and answered until its time to live ends.
use sql_fuse.Base.{List, Option, Text, [], if◌then◌else◌, leb, none, some, ℕ, ◌+◌, ◌∷◌}
use sql_fuse.Cache.Types.{CacheManager}
use sql_fuse.Cache.Lru.{◌>>=◌}
use sql_fuse.Fs.Types.{Query, answer, throws}
use sql_fuse.Schema.Cached.{Fetched, fails, unkept, listed, cached_list}

-- The list, and the time from which it is no longer answered.
abbrev pub Memo : Type 0
Memo = Option (ℕ × List Text)

abbrev pub kept : Memo → ℕ → Option (List Text)
kept none now = none
kept (some (expires, names)) now = if leb expires now then none else some names

-- A lookup: when the cache is asked, when it is told, and what the database would give.
pub record Call : Type 0 where
  pub now : ℕ
  pub later : ℕ
  pub fetched : Fetched

abbrev pub memo_fetched : ℕ → ℕ → Fetched → Memo → Memo × Query (List Text)
memo_fetched ttl later fails memo = (memo, throws)
memo_fetched ttl later (unkept names) memo = (memo, answer names)
memo_fetched ttl later (listed names) memo = (some (later + ttl, names), answer names)

abbrev pub memo_found : ℕ → Call → Memo → Option (List Text) → Memo × Query (List Text)
memo_found ttl call memo none = memo_fetched ttl call.later call.fetched memo
memo_found ttl call memo (some names) = (memo, answer names)

abbrev pub memo_call : ℕ → Call → Memo → Memo × Query (List Text)
memo_call ttl call memo = memo_found ttl call memo (kept memo call.now)

unfoldable pub memo_run : ℕ → List Call → Memo → List (Query (List Text))
memo_run ttl [] memo = []
memo_run ttl (call ∷ calls) memo =
    (memo_call ttl call memo).1 ∷ memo_run ttl calls (memo_call ttl call memo).0

-- The same calls on the cache.
unfoldable pub lookup_run :
    Text → List Call → CacheManager → Option (CacheManager × List (Query (List Text)))
unfolding cached_list
lookup_run key [] c = some (c, [])
lookup_run key (call ∷ calls) c = cached_list key call.now call.later call.fetched c >>= λ r.
    lookup_run key calls r.0 >>= λ rest. some (rest.0, r.1 ∷ rest.1)
