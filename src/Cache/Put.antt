-- ===== src/Cache/Put.antt =====
-- `CacheManager::put` (src/CacheManager.cpp): the invariant, what is stored, and the bound.
use sql_fuse.Base.{
  Bool-cases, List, Option, Option-cases, Text, [], add64, add64-mod, arith, false, if◌then◌else◌,
  inl, inr, insert, insert-Distinct, leb, length, lookup, lookup-insert, mem, mem-keys,
  mem-keys-insert, mem-remove, none, refl, remove, remove-Distinct, some, sub64, text_eq_iff,
  text_eq_refl, true, word, ℕ, ◌%◌, ◌&&◌, ◌+◌, ◌/◌, ◌<◌, ◌^◌, ◌∷◌, ◌≡◌, ◌≢◌, ◌≤◌, ◌⊎◌,
}
use sql_fuse.Cache.Lru.{◌>>=◌}
use sql_fuse.Cache.Types.{CacheEntry, CacheManager}
use sql_fuse.Cache.Evict.{evict_if_needed}
use sql_fuse.Cache.Write.{forget_old, store, new_entry, value_or, put}
use sql_fuse.Cache.Valid.{
  total, IsValid, IsValid-mem, total-insert_old, total-insert_new, total-lookup,
}
use sql_fuse.Cache.Evicted.{evict_if_needed-IsValid, evict_if_needed-config}
use sql_fuse.Cache.Room.{evict_if_needed_room}
use sql_fuse.Cache.Taken.{evict_if_needed-lookup}
use sql_fuse.Cache.Get.{answer}

-- `put` after the eviction, with the undefined behaviour gone: the size of what was there for the
-- key is given back.
unfoldable pub returned : Option CacheEntry → ℕ → ℕ
returned none n = n
returned (some o) n = sub64 n o.size

unfoldable pub stored : Text → CacheEntry → CacheManager → CacheManager
stored key entry c = record c {
  cache = insert key entry c.cache;
  lru_list = key ∷ remove key c.lru_list;
  lru_map = if mem key c.lru_map then c.lru_map else key ∷ c.lru_map;
  stats = record (c.stats) {
    current_size = add64 (returned (lookup key c.cache) c.stats.current_size) entry.size;
    entry_count = length (insert key entry c.cache);
  };
}

remove_absent : (k : Text) (l : List Text) → mem k l ≡ false → remove k l ≡ l
unfolding mem remove
remove_absent k [] h = refl
remove_absent k (j ∷ l) h = ground (arith, remove_absent k l)

store-stored :
    {c : CacheManager} (key : Text) (entry : CacheEntry)
    → IsValid c
    → (do c' ← forget_old key c (lookup key c.cache); some (store key entry c'))
      ≡ some (stored key entry c)
store-stored {c} key entry v = elim (Option-cases (lookup key c.cache)) [
  | inl e ↦
      unfold forget_old store stored returned in
      let absent : mem key c.lru_list ≡ false =
        ground (arith, v.listed key, mem-keys key c.cache) in
      rw (e, remove_absent key c.lru_list absent) refl
  | inr (o, e) ↦
      unfold forget_old store stored returned in
      let (a, b) = IsValid-mem key v e in
      let both : (mem key c.lru_map && mem key c.lru_list) ≡ true = rw (a, b) in rw (e, both) refl
]

stored-counted :
    {c : CacheManager} (key : Text) (entry : CacheEntry)
    → IsValid c
    → add64 (returned (lookup key c.cache) c.stats.current_size) entry.size
      ≡ total (insert key entry c.cache) % word
stored-counted {c} key entry v = elim (Option-cases (lookup key c.cache)) [
  | inl e ↦
      rw (e, v.counted, total-insert_new key c.cache entry e) (unfold returned in add64-mod _ _)
  | inr (o, e) ↦
      rw (e, v.counted)
        (unfold returned add64 sub64 in omega (arith, total-insert_old key c.cache entry o e))
]

stored-IsValid :
    {c : CacheManager} (key : Text) (entry : CacheEntry) → IsValid c → IsValid (stored key entry c)
unfolding stored mem
stored-IsValid {c} k e v = record {
  distinct = insert-Distinct k e c.cache v.distinct;
  lru_distinct = (
    ground (arith, mem-remove k k c.lru_list, text_eq_refl k),
    remove-Distinct k c.lru_list v.lru_distinct,
  );
  listed = λ j. ground (
    arith,
    mem-remove k j c.lru_list,
    v.listed j,
    mem-keys-insert k j e c.cache,
    text_eq_iff k j,
  );
  mapped = λ j. ground (arith, mem-remove k j c.lru_list, v.mapped j, v.mapped k, text_eq_iff k j);
  counted = stored-counted k e v;
}

module _ (key content : Text) (ttl : Option ℕ) (now : ℕ) (c : CacheManager) (v : IsValid c) where
  abbrev pub entry : CacheEntry
  entry = new_entry content now (value_or ttl c.config.data_ttl)

  abbrev evicted : CacheManager
  evicted = evict_if_needed (length content) c

  evicted-IsValid : IsValid evicted
  evicted-IsValid = evict_if_needed-IsValid (length content) v

  pub put-stored :
      c.config.enabled ≡ true → put key content ttl now c ≡ some (stored key entry evicted)
  unfolding put
  put-stored on = simp on (store-stored key entry evicted-IsValid)

  -- On a consistent cache `put` runs no erase through a missing iterator, and leaves it
  -- consistent.
  pub put-IsValid : (c' : CacheManager) × (put key content ttl now c ≡ some c') × IsValid c'
  put-IsValid = elim (Bool-cases c.config.enabled) [
    | inl on ↦ (stored key entry evicted, put-stored on, stored-IsValid key entry evicted-IsValid)
    | inr off ↦ (c, (unfold put in simp off), v)
  ]

  module _ {c' : CacheManager} (on : c.config.enabled ≡ true)
      (done : put key content ttl now c ≡ some c') where
    put-eq : c' ≡ stored key entry evicted
    put-eq = cc (put-stored on)

    still_on : evicted.config.enabled ≡ true
    still_on = rw (evict_if_needed-config (length content) c) on

    pub put-config : c'.config ≡ c.config
    unfolding stored
    put-config = rw put-eq (evict_if_needed-config (length content) c)

    -- After a `put` that ran on a consistent cache that is on, the cache answers the new content
    -- for the key until its time to live ends, and for any other key what it answered before, or
    -- nothing.
    pub answer-put :
        (j : Text) (later : ℕ)
        → (j ≡ key
            → answer j later c'
              ≡ (if leb (now + value_or ttl c.config.data_ttl) later then none else some content))
          × (j ≢ key → (answer j later c' ≡ answer j later c) ⊎ (answer j later c' ≡ none))
    answer-put j later =
        rw (put-eq, answer)
          (unfold stored new_entry in
            rw lookup-insert (
              (λ same. ground (arith, still_on, text_eq_iff key j, same)),
              λ other. elim (evict_if_needed-lookup (length content) j c) [
                | inl e ↦ inl (ground (arith, still_on, text_eq_iff key j, e, on))
                | inr e ↦ inr (ground (arith, still_on, text_eq_iff key j, e))
              ],
            ))

    -- A `put` of an item of at most half the bound, into a consistent cache that is on and
    -- within a bound below 2 ^ 63, leaves the cache within the bound.
    pub put_bounded :
        c.config.max_size_bytes < 2 ^ 63
        → total c.cache ≤ c.config.max_size_bytes
        → length content ≤ c.config.max_size_bytes / 2
        → total c'.cache ≤ c.config.max_size_bytes
    put_bounded small within half = rw put-eq (
        unfold stored new_entry in
        let room = evict_if_needed_room (length content) c v small within half in
        elim (Option-cases (lookup key evicted.cache)) [
          | inl e ↦ rw (total-insert_new key evicted.cache entry e) room
          | inr (o, e) ↦ omega (arith, room, total-insert_old key evicted.cache entry o e)
        ])

    -- An item larger than the bound is stored all the same by a `put` into a consistent cache
    -- that is on, and the cache is then over its bound.
    pub put_oversized :
        c.config.max_size_bytes < length content → c.config.max_size_bytes < total c'.cache
    put_oversized large = rw put-eq (
        unfold stored new_entry in
        elim (Option-cases (lookup key evicted.cache)) [
          | inl e ↦ omega (arith, total-insert_new key evicted.cache entry e)
          | inr (o, e) ↦ omega (
            arith,
            total-insert_old key evicted.cache entry o e,
            total-lookup key evicted.cache o e,
          )
        ])
