-- ===== src/Cache/Drop.antt =====
-- `remove`, `invalidate`, `pruneExpired` and `clear` of src/CacheManager.cpp.
use sql_fuse.Base.{
  Bool, List, Option, Text, [], codes, if◌then◌else◌, keys, leb, length, lookup, none, some, ℕ,
  ◌++◌, ◌∷◌,
}
use sql_fuse.Cache.Types.{CacheEntry, CacheManager}
use sql_fuse.Cache.Lru.{◌>>=◌, drop_entry}
use sql_fuse.Cache.Pattern.{matches_pattern}

abbrev pub count_entries : CacheManager → CacheManager
count_entries c = record c { stats = record (c.stats) { entry_count = length c.cache } }

unfoldable pub drop_found : Text → CacheManager → Option CacheEntry → Option CacheManager
unfolding drop_entry
drop_found key c none = some c
drop_found key c (some entry) = drop_entry key entry c

-- `remove`.
unfoldable pub remove_key : Text → CacheManager → Option CacheManager
unfolding drop_entry
remove_key key c = elim (lookup key c.cache) [
  | none ↦ some c
  | some entry ↦ do c' ← drop_entry key entry c; some (count_entries c')
]

-- The second loop of `invalidate` and of `pruneExpired`.
unfoldable pub drop_all : List Text → CacheManager → Option CacheManager
unfolding drop_found
drop_all [] c = some c
drop_all (key ∷ keys) c = do c' ← drop_found key c (lookup key c.cache); drop_all keys c'

-- The first loop: the keys of the entries that pass a test.
unfoldable pub select : (Text → CacheEntry → Bool) → List (Text × CacheEntry) → List Text
select test [] = []
select test ((key, entry) ∷ cache) =
    if test key entry then key ∷ select test cache else select test cache

unfoldable pub drop_where : (Text → CacheEntry → Bool) → CacheManager → Option CacheManager
unfolding drop_all select
drop_where test c = do c' ← drop_all (select test c.cache) c; some (count_entries c')

unfoldable pub invalidate : Text → CacheManager → Option CacheManager
unfolding drop_where
invalidate pattern c = drop_where (λ key entry. matches_pattern key pattern) c

unfoldable pub prune_expired : ℕ → CacheManager → Option CacheManager
unfolding drop_where
prune_expired now c = drop_where (λ key entry. leb entry.expires now) c

unfoldable pub invalidate_table : Text → Text → CacheManager → Option CacheManager
invalidate_table database table c = do
  c' ← invalidate (database ++ (codes "/" ++ (table ++ codes ".*"))) c
  c'' ← invalidate (database ++ (codes "/" ++ (table ++ codes "/*"))) c'
  invalidate (database ++ (codes "/tables/" ++ (table ++ codes "*"))) c''

unfoldable pub invalidate_database : Text → CacheManager → Option CacheManager
invalidate_database database c = invalidate (database ++ codes "/*") c

unfoldable pub clear : CacheManager → CacheManager
clear c = record c {
  cache = [];
  lru_list = [];
  lru_map = [];
  stats = record (c.stats) { current_size = 0; entry_count = 0 };
}
