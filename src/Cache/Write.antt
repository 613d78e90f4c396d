-- ===== src/Cache/Write.antt =====
-- Both `put`s of src/CacheManager.cpp.
use sql_fuse.Base.{
  Option, Text, add64, if◌then◌else◌, insert, length, lookup, none, some, sub64, ℕ, ◌+◌,
}
use sql_fuse.Cache.Types.{
  CacheEntry, CacheConfig, CacheManager, Category, schema, metadata, contents,
}
use sql_fuse.Cache.Lru.{◌>>=◌, lru_erase, lru_push}
use sql_fuse.Cache.Evict.{evict_if_needed}

-- An entry that is replaced gives back its size and its place in `m_lruList`.
unfoldable pub forget_old : Text → CacheManager → Option CacheEntry → Option CacheManager
unfolding lru_erase
forget_old key c none = some c
forget_old key c (some existing) = lru_erase key (record c {
  stats = record (c.stats) { current_size = sub64 c.stats.current_size existing.size };
})

unfoldable pub store : Text → CacheEntry → CacheManager → CacheManager
unfolding lru_push
store key entry c =
    let c' = lru_push key (record c { cache = insert key entry c.cache }) in
    record c' {
      stats = record (c'.stats) {
        current_size = add64 c'.stats.current_size entry.size;
        entry_count = length c'.cache;
      };
    }

unfoldable pub new_entry : Text → ℕ → ℕ → CacheEntry
new_entry content now ttl = record {
  content = content;
  created = now;
  expires = now + ttl;
  size = length content;
  hits = 0;
}

-- `ttl.value_or(m_config.data_ttl)`.
abbrev pub value_or : Option ℕ → ℕ → ℕ
value_or none d = d
value_or (some ttl) d = ttl

unfoldable pub put : Text → Text → Option ℕ → ℕ → CacheManager → Option CacheManager
unfolding forget_old store new_entry
put key content ttl now c =
    let evicted = evict_if_needed (length content) c in
    if c.config.enabled
    then (do
      c' ← forget_old key evicted (lookup key evicted.cache)
      some (store key (new_entry content now (value_or ttl c.config.data_ttl)) c'))
    else some c

unfoldable pub ttl_for_category : Category → CacheConfig → ℕ
ttl_for_category schema config = config.schema_ttl
ttl_for_category metadata config = config.metadata_ttl
ttl_for_category contents config = config.data_ttl

-- `put` with a category.
unfoldable pub put_category : Text → Text → Category → ℕ → CacheManager → Option CacheManager
put_category key content category now c =
    put key content (some (ttl_for_category category c.config)) now c
