-- ===== src/Cache/Policy.antt =====
-- The order of eviction of src/CacheManager.cpp: `m_lruList` has the least recently used key last.
use sql_fuse.Base.{
  Bool-cases, List, Option, Option-cases, Text, [], append-nil, append_assoc, arith, inl, inr,
  length, lookup, lookup-insert, ltb, mem, mem-keys, pop_back-cases, refl, remove, some, suc, sym,
  text_eq_iff, true, zero, ℕ, ◌++◌, ◌/◌, ◌∙◌, ◌∷◌, ◌≡◌, ◌≢◌,
}
use sql_fuse.Cache.Types.{CacheManager}
use sql_fuse.Cache.Evict.{evict_key, evict_lru, is_over, evict_loop, evict_if_needed}
use sql_fuse.Cache.Write.{put}
use sql_fuse.Cache.Valid.{IsValid}
use sql_fuse.Cache.Evicted.{evict_if_needed-IsValid}
use sql_fuse.Cache.Taken.{evict_if_needed-lookup}
use sql_fuse.Cache.Put.{stored, entry, put-stored}

-- One list is the other without some elements at its end.
abbrev pub IsPrefix : List Text → List Text → Type 0
IsPrefix kept l = (back : List Text) × (l ≡ kept ++ back)

IsPrefix-trans : (a b c : List Text) → IsPrefix a b → IsPrefix b c → IsPrefix a c
IsPrefix-trans a b c (x, e) (y, k) = (x ++ y, k ∙ rw e (append_assoc a x y))

evict_lru-IsPrefix : (c : CacheManager) → IsPrefix (evict_lru c).lru_list c.lru_list
unfolding evict_lru evict_key
evict_lru-IsPrefix c = elim (pop_back-cases c.lru_list) [
  | inl (n, e) ↦ rw (e, evict_lru) ([], sym (append-nil c.lru_list))
  | inr (rest, key, split, e) ↦ elim (Option-cases (lookup key c.cache)) [
    | inl m ↦ rw (e, evict_lru) (rw (m, evict_key) (key ∷ [], split))
    | inr (o, m) ↦ rw (e, evict_lru) (rw (m, evict_key) (key ∷ [], split))
  ]
]

evict_loop-IsPrefix :
    (fuel required : ℕ) (c : CacheManager)
    → IsPrefix (evict_loop fuel required c).lru_list c.lru_list
unfolding evict_loop
evict_loop-IsPrefix zero required c = ([], sym (append-nil c.lru_list))
evict_loop-IsPrefix (suc fuel) required c = elim (Bool-cases (is_over required c)) [
  | inr e ↦ rw (e, evict_loop) ([], sym (append-nil c.lru_list))
  | inl e ↦
      rw (e, evict_loop)
        (IsPrefix-trans _ _ _ (evict_loop-IsPrefix fuel required (evict_lru c))
          (evict_lru-IsPrefix c))
]

evict_if_needed-IsPrefix :
    (required : ℕ) (c : CacheManager) → IsPrefix (evict_if_needed required c).lru_list c.lru_list
unfolding evict_if_needed
evict_if_needed-IsPrefix required c =
    elim (Bool-cases (ltb (c.config.max_size_bytes / 2) required)) [
      | inl e ↦ rw e ([], sym (append-nil c.lru_list))
      | inr e ↦ rw e (evict_loop-IsPrefix (length c.lru_list) required c)
    ]

evict_if_needed-kept :
    (required : ℕ) (j : Text) (c : CacheManager)
    → IsValid c
    → mem j (evict_if_needed required c).lru_list ≡ true
    → lookup j (evict_if_needed required c).cache ≡ lookup j c.cache
evict_if_needed-kept required j c v here = elim (evict_if_needed-lookup required j c) [
  | inl same ↦ same
  | inr gone ↦ absurd (
      ground (
        arith,
        (evict_if_needed-IsValid required v).listed j,
        mem-keys j (evict_if_needed required c).cache,
        gone,
        here,
      ))
]

-- A `put` into a consistent cache that is on evicts the least recently used keys: those that are
-- kept are a prefix of the list in the order of use, and they keep their entries. Afterwards the
-- key of the `put` is the most recently used one, before the others that were kept.
pub put-lru_list :
    (key content : Text) (ttl : Option ℕ) (now : ℕ) (c : CacheManager)
    → IsValid c
    → c.config.enabled ≡ true
    → (c' : CacheManager) × (kept : List Text) × (put key content ttl now c ≡ some c')
      × IsPrefix kept c.lru_list
      × (c'.lru_list ≡ key ∷ remove key kept)
      × ((j : Text) → j ≢ key → mem j kept ≡ true → lookup j c'.cache ≡ lookup j c.cache)
unfolding stored
put-lru_list key content ttl now c v on = (
  stored key (entry key content ttl now c v) (evict_if_needed (length content) c),
  (evict_if_needed (length content) c).lru_list,
  put-stored key content ttl now c v on,
  evict_if_needed-IsPrefix (length content) c,
  refl,
  λ j other here.
      rw lookup-insert
        (ground (arith, text_eq_iff key j, evict_if_needed-kept (length content) j c v here)),
)
