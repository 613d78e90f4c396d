-- ===== src/Cache/Room.antt =====
-- `evictIfNeeded` (src/CacheManager.cpp) makes room.
use sql_fuse.Base.{
  Bool-cases, List, Option-cases, Text, [], add64, ap, arith, false, inl, inr, is_empty, keys,
  le_of_ltb-false, length, lookup, ltb, ltb-false, mem, pop_back-cases, refl, suc, sym,
  text_eq_refl, true, word, zero, ℕ, ◌%◌, ◌+◌, ◌/◌, ◌<◌, ◌^◌, ◌∙◌, ◌∷◌, ◌≡◌, ◌≤◌,
}
use sql_fuse.Cache.Types.{CacheEntry, CacheManager}
use sql_fuse.Cache.Evict.{evict_key, evict_lru, is_over, evict_loop, evict_if_needed}
use sql_fuse.Cache.Valid.{total, IsValid, total-erase}
use sql_fuse.Cache.Evicted.{
  evict_lru-IsValid, evict_loop-IsValid, evict_loop_done, evict_loop-config,
}

evict_lru-total : (c : CacheManager) → IsValid c → total (evict_lru c).cache ≤ total c.cache
unfolding evict_lru evict_key
evict_lru-total c v = elim (pop_back-cases c.lru_list) [
  | inl (n, e) ↦ rw (e, evict_lru) (omega arith)
  | inr (rest, key, back, e) ↦ elim (Option-cases (lookup key c.cache)) [
    | inl m ↦ rw (e, evict_lru) (rw (m, evict_key) (omega arith))
    | inr (o, m) ↦
        rw (e, evict_lru)
          (rw (m, evict_key) (omega (arith, total-erase key c.cache o v.distinct m)))
  ]
]

evict_loop-total :
    (fuel required : ℕ) (c : CacheManager)
    → IsValid c
    → total (evict_loop fuel required c).cache ≤ total c.cache
unfolding evict_loop
evict_loop-total zero required c v = omega arith
evict_loop-total (suc fuel) required c v = elim (Bool-cases (is_over required c)) [
  | inl e ↦
      rw (e, evict_loop)
        (omega (
          arith,
          evict_loop-total fuel required (evict_lru c) (evict_lru-IsValid v),
          evict_lru-total c v,
        ))
  | inr e ↦ rw (e, evict_loop) (omega arith)
]

keys-nil : (m : List (Text × CacheEntry)) → ((k : Text) → mem k (keys m) ≡ false) → m ≡ []
unfolding mem
keys-nil [] h = refl
keys-nil ((k, e) ∷ m) h = ground (arith, h k, text_eq_refl k)

-- A consistent cache with nothing in its list is empty.
total-nil : (c : CacheManager) → IsValid c → c.lru_list ≡ [] → total c.cache ≡ 0
unfolding mem
total-nil c v h = rw (keys-nil c.cache (λ k. sym (v.listed k) ∙ ap (mem k) h))

nil_of_empty : (l : List Text) → is_empty l ≡ true → l ≡ []
nil_of_empty [] h = refl
nil_of_empty (k ∷ l) h = ground arith

-- A consistent cache whose size is below the bound, and for which the test of the loop fails.
not-is_over :
    (required : ℕ) (c : CacheManager)
    → IsValid c
    → c.config.max_size_bytes < 2 ^ 63
    → total c.cache ≤ c.config.max_size_bytes
    → required ≤ c.config.max_size_bytes / 2
    → is_over required c ≡ false
    → total c.cache + required ≤ c.config.max_size_bytes
unfolding is_over add64
not-is_over required c v small within half done = elim (Bool-cases (is_empty c.lru_list)) [
  | inl e ↦ omega (arith, total-nil c v (nil_of_empty c.lru_list e))
  | inr e ↦
      let fits : ltb c.config.max_size_bytes ((c.stats.current_size + required) % word) ≡ false =
        ground arith in
      omega (arith, v.counted, le_of_ltb-false _ _ fits)
]

-- On a consistent cache within a bound below 2 ^ 63, after the eviction for an item of at most
-- half the bound there is room for it.
pub evict_if_needed_room :
    (required : ℕ) (c : CacheManager)
    → IsValid c
    → c.config.max_size_bytes < 2 ^ 63
    → total c.cache ≤ c.config.max_size_bytes
    → required ≤ c.config.max_size_bytes / 2
    → total (evict_if_needed required c).cache + required ≤ c.config.max_size_bytes
unfolding evict_if_needed
evict_if_needed_room required c v small within half =
    let d = evict_loop (length c.lru_list) required c in
    let same : d.config ≡ c.config = evict_loop-config (length c.lru_list) required c in
    let shrunk : total d.cache ≤ total c.cache =
      evict_loop-total (length c.lru_list) required c v in
    let room : total d.cache + required ≤ d.config.max_size_bytes =
      not-is_over required d (evict_loop-IsValid (length c.lru_list) required v) (rw same small)
        (rw same (omega arith)) (rw same half)
        (evict_loop_done (length c.lru_list) required c (omega arith)) in
    rw (ltb-false (c.config.max_size_bytes / 2) required half) (rw same at room)
