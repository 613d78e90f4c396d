-- ===== src/Cache/Lru.antt =====
-- The steps on `m_lruList` and `m_lruMap` that src/CacheManager.cpp repeats. `none` stands for
-- undefined behaviour: an erase through an iterator that `m_lruMap` does not hold.
use sql_fuse.Base.{Option, Text, erase, if◌then◌else◌, mem, none, remove, some, sub64, ◌&&◌, ◌∷◌}
use sql_fuse.Cache.Types.{CacheEntry, CacheManager}

infixl 5 ◌>>=◌
abbrev pub ◌>>=◌ {ℓ κ} : {A : Type ℓ} {B : Type κ} → Option A → (A → Option B) → Option B
none >>= f = none
some a >>= f = f a

-- `m_lruList.erase(m_lruMap[key])`.
unfoldable pub lru_erase : Text → CacheManager → Option CacheManager
lru_erase key c =
    if mem key c.lru_map && mem key c.lru_list
    then some (record c { lru_list = remove key c.lru_list })
    else none

-- `m_lruList.push_front(key); m_lruMap[key] = m_lruList.begin();`.
unfoldable pub lru_push : Text → CacheManager → CacheManager
lru_push key c = record c {
  lru_list = key ∷ c.lru_list;
  lru_map = if mem key c.lru_map then c.lru_map else key ∷ c.lru_map;
}

-- Taking an entry out, as `get`, `remove`, `invalidate` and `pruneExpired` all do.
unfoldable pub drop_entry : Text → CacheEntry → CacheManager → Option CacheManager
unfolding lru_erase
drop_entry key entry c = do
  c' ← lru_erase key (record c {
    stats = record (c.stats) { current_size = sub64 c.stats.current_size entry.size };
  })
  some (record c' { lru_map = remove key c'.lru_map; cache = erase key c'.cache })
