-- ===== src/Cache/Read.antt =====
-- The constructor, `get` and `contains` of src/CacheManager.cpp.
use sql_fuse.Base.{
  Bool, Option, Text, [], add64, false, if◌then◌else◌, insert, leb, lookup, ltb, none, some, ℕ,
}
use sql_fuse.Cache.Types.{CacheEntry, CacheConfig, CacheManager}
use sql_fuse.Cache.Lru.{◌>>=◌, lru_erase, lru_push, drop_entry}

unfoldable pub init : CacheConfig → CacheManager
init config = record {
  config = config;
  cache = [];
  lru_list = [];
  lru_map = [];
  stats = record {
    hits = 0;
    misses = 0;
    current_size = 0;
    max_size = config.max_size_bytes;
    entry_count = 0;
    evictions = 0;
  };
}

unfoldable pub miss : CacheManager → CacheManager
miss c = record c { stats = record (c.stats) { misses = add64 c.stats.misses 1 } }

unfoldable pub hit : Text → CacheEntry → CacheManager → CacheManager
hit key entry c = record c {
  cache = insert key (record entry { hits = add64 entry.hits 1 }) c.cache;
  stats = record (c.stats) { hits = add64 c.stats.hits 1 };
}

unfoldable pub get_entry :
    Text → ℕ → CacheManager → Option CacheEntry → Option (CacheManager × Option Text)
unfolding miss hit drop_entry lru_push lru_erase
get_entry key now c none = some (miss c, none)
get_entry key now c (some entry) =
    if leb entry.expires now
    then (do c' ← drop_entry key entry c; some (miss c', none))
    else (do c' ← lru_erase key c; some (hit key entry (lru_push key c'), some entry.content))

unfoldable pub get : Text → ℕ → CacheManager → Option (CacheManager × Option Text)
unfolding get_entry
get key now c =
    if c.config.enabled then get_entry key now c (lookup key c.cache) else some (c, none)

unfoldable pub contains : Text → ℕ → CacheManager → Bool
contains key now c =
    if c.config.enabled
    then elim (lookup key c.cache) [ none ↦ false | some entry ↦ ltb now entry.expires ]
    else false
