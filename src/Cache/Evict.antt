-- ===== src/Cache/Evict.antt =====
-- `evictLRU` and `evictIfNeeded` of src/CacheManager.cpp.
use sql_fuse.Base.{
  Bool, List, Option, Text, add64, erase, false, if◌then◌else◌, is_empty, length, lookup, ltb, none,
  not, pop_back, remove, some, sub64, suc, true, zero, ℕ, ◌&&◌, ◌/◌,
}
use sql_fuse.Cache.Types.{CacheEntry, CacheManager}

-- `evictLRU`: the least recently used key goes, with its entry if it has one.
unfoldable pub evict_key : List Text → Text → CacheManager → Option CacheEntry → CacheManager
evict_key rest key c none = record c {
  lru_list = rest;
  lru_map = remove key c.lru_map;
  stats = record (c.stats) { evictions = add64 c.stats.evictions 1 };
}
evict_key rest key c (some entry) = record c {
  lru_list = rest;
  lru_map = remove key c.lru_map;
  cache = erase key c.cache;
  stats = record (c.stats) {
    current_size = sub64 c.stats.current_size entry.size;
    evictions = add64 c.stats.evictions 1;
  };
}

unfoldable pub evict_lru : CacheManager → CacheManager
unfolding evict_key
evict_lru c = elim (pop_back c.lru_list) [
  | none ↦ c
  | some (rest, key) ↦ evict_key rest key c (lookup key c.cache)
]

-- The test of the loop of `evictIfNeeded`.
unfoldable pub is_over : ℕ → CacheManager → Bool
is_over required_space c =
    ltb c.config.max_size_bytes (add64 c.stats.current_size required_space)
    && not (is_empty c.lru_list)

-- The loop; a round shortens `m_lruList`, so its length is fuel enough.
unfoldable pub evict_loop : ℕ → ℕ → CacheManager → CacheManager
evict_loop zero required_space c = c
evict_loop (suc fuel) required_space c = elim (is_over required_space c) [
  | true ↦ evict_loop fuel required_space (evict_lru c)
  | false ↦ c
]

unfoldable pub evict_if_needed : ℕ → CacheManager → CacheManager
evict_if_needed required_space c =
    if ltb (c.config.max_size_bytes / 2) required_space
    then c
    else evict_loop (length c.lru_list) required_space c
