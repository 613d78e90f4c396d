-- ===== src/Cache/Taken.antt =====
-- What `evictIfNeeded` (src/CacheManager.cpp) takes out.
use sql_fuse.Base.{
  Bool, Bool-cases, Option-cases, Text, false, if◌then◌else◌, inl, inr, length, lookup,
  lookup-erase, ltb, none, pop_back-cases, refl, suc, text_eq, true, zero, ℕ, ◌/◌, ◌∙◌, ◌≡◌, ◌⊎◌,
}
use sql_fuse.Cache.Types.{CacheManager}
use sql_fuse.Cache.Evict.{evict_key, evict_lru, is_over, evict_loop, evict_if_needed}

evict_lru-lookup :
    (j : Text) (c : CacheManager)
    → (lookup j (evict_lru c).cache ≡ lookup j c.cache) ⊎ (lookup j (evict_lru c).cache ≡ none)
unfolding evict_lru evict_key
evict_lru-lookup j c = elim (pop_back-cases c.lru_list) [
  | inl (n, e) ↦ rw (e, evict_lru) (inl refl)
  | inr (rest, key, back, e) ↦ elim (Option-cases (lookup key c.cache)) [
    | inl m ↦ rw (e, evict_lru) (rw (m, evict_key) (inl refl))
    | inr (o, m) ↦
        rw (e, evict_lru) (rw (m, evict_key, lookup-erase key j c.cache) (gone (text_eq key j)))
  ]
]
  where
    gone :
        (b : Bool)
        → ((if b then none else lookup j c.cache) ≡ lookup j c.cache)
          ⊎ ((if b then none else lookup j c.cache) ≡ none)
    gone true = inr refl
    gone false = inl refl

evict_loop-lookup :
    (fuel required : ℕ) (j : Text) (c : CacheManager)
    → (lookup j (evict_loop fuel required c).cache ≡ lookup j c.cache)
      ⊎ (lookup j (evict_loop fuel required c).cache ≡ none)
unfolding evict_loop
evict_loop-lookup zero required j c = inl refl
evict_loop-lookup (suc fuel) required j c = elim (Bool-cases (is_over required c)) [
  | inr e ↦ rw (e, evict_loop) (inl refl)
  | inl e ↦
      rw (e, evict_loop)
        (elim (evict_loop-lookup fuel required j (evict_lru c)) [
          | inr none' ↦ inr none'
          | inl same ↦ elim (evict_lru-lookup j c) [
            | inl same' ↦ inl (same ∙ same')
            | inr none' ↦ inr (same ∙ none')
          ]
        ])
]

-- Eviction takes entries out and changes none.
pub evict_if_needed-lookup :
    (required : ℕ) (j : Text) (c : CacheManager)
    → (lookup j (evict_if_needed required c).cache ≡ lookup j c.cache)
      ⊎ (lookup j (evict_if_needed required c).cache ≡ none)
unfolding evict_if_needed
evict_if_needed-lookup required j c =
    elim (Bool-cases (ltb (c.config.max_size_bytes / 2) required)) [
      | inl e ↦ rw e (inl refl)
      | inr e ↦ rw e (evict_loop-lookup (length c.lru_list) required j c)
    ]
