-- ===== src/Cache/Evicted.antt =====
-- `evictLRU` and `evictIfNeeded` (src/CacheManager.cpp): what they keep, and when they stop.
use sql_fuse.Base.{
  Bool-cases, Distinct, Distinct-concat, List, Option-cases, Text, [], ap, arith, erase,
  erase-Distinct, false, if◌then◌else◌, inl, inr, length, length-append, lookup, ltb, mem,
  mem-concat, mem-keys, mem-keys-erase, mem-remove, pop_back-cases, refl, sub64-mod, subst, suc,
  text_eq, text_eq_iff, text_eq_refl, true, zero, ℕ, ◌++◌, ◌-◌, ◌/◌, ◌∙◌, ◌∷◌, ◌≡◌, ◌≤◌,
}
use sql_fuse.Cache.Types.{CacheManager}
use sql_fuse.Cache.Evict.{evict_key, evict_lru, is_over, evict_loop, evict_if_needed}
use sql_fuse.Cache.Valid.{total, IsValid, total-erase}

module _ (c : CacheManager) (rest : List Text) (key : Text)
    (back : c.lru_list ≡ rest ++ key ∷ []) where
  rest-Distinct : IsValid c → Distinct rest × (mem key rest ≡ false)
  rest-Distinct v = Distinct-concat key rest (subst Distinct back v.lru_distinct)

  mem-rest :
      IsValid c → (j : Text) → mem j rest ≡ (if text_eq key j then false else mem j c.lru_list)
  mem-rest v j =
      rw back (ground (arith, mem-concat j key rest, (rest-Distinct v).1, text_eq_iff key j))

  mem-back : mem key c.lru_list ≡ true
  mem-back = rw back (ground (arith, mem-concat key key rest, text_eq_refl key))

  evict_key-IsValid : IsValid c → IsValid (evict_key rest key c (lookup key c.cache))
  evict_key-IsValid v = elim (Option-cases (lookup key c.cache)) [
    | inl e ↦ rw e (
        unfold evict_key in
        record {
          distinct = v.distinct;
          lru_distinct = (rest-Distinct v).0;
          listed = λ j. absurd (cc (mem-back, v.listed key, mem-keys key c.cache, e));
          mapped = λ j. ground (arith, mem-rest v j, mem-remove key j c.lru_map, v.mapped j);
          counted = v.counted;
        })
    | inr (o, e) ↦ rw e (
        unfold evict_key in
        record {
          distinct = erase-Distinct key c.cache v.distinct;
          lru_distinct = (rest-Distinct v).0;
          listed = λ j. ground (arith, mem-rest v j, mem-keys-erase key j c.cache, v.listed j);
          mapped = λ j. ground (arith, mem-rest v j, mem-remove key j c.lru_map, v.mapped j);
          counted =
              rw (v.counted, total-erase key c.cache o v.distinct e)
                (sub64-mod (total (erase key c.cache)) o.size);
        })
  ]

pub evict_lru-IsValid : {c : CacheManager} → IsValid c → IsValid (evict_lru c)
unfolding evict_lru
evict_lru-IsValid {c} v = elim (pop_back-cases c.lru_list) [
  | inl (_, e) ↦ rw (e, evict_lru) v
  | inr (rest, key, back, e) ↦ rw (e, evict_lru) (evict_key-IsValid c rest key back v)
]

pub evict_loop-IsValid :
    (fuel required : ℕ) {c : CacheManager} → IsValid c → IsValid (evict_loop fuel required c)
unfolding evict_loop
evict_loop-IsValid zero required v = v
evict_loop-IsValid (suc fuel) required {c} v = elim (Bool-cases (is_over required c)) [
  | inl e ↦ rw (e, evict_loop) (evict_loop-IsValid fuel required (evict_lru-IsValid v))
  | inr e ↦ rw (e, evict_loop) v
]

pub evict_if_needed-IsValid :
    (required : ℕ) {c : CacheManager} → IsValid c → IsValid (evict_if_needed required c)
unfolding evict_if_needed
evict_if_needed-IsValid required {c} v =
    elim (Bool-cases (ltb (c.config.max_size_bytes / 2) required)) [
      | inl e ↦ rw e v
      | inr e ↦ rw e (evict_loop-IsValid (length c.lru_list) required v)
    ]

pub length-evict_lru : (c : CacheManager) → length (evict_lru c).lru_list ≡ length c.lru_list - 1
unfolding evict_lru evict_key
length-evict_lru c = elim (pop_back-cases c.lru_list) [
  | inl (n, e) ↦ rw (e, evict_lru) (omega (arith, ap length n))
  | inr (rest, key, back, e) ↦ elim (Option-cases (lookup key c.cache)) [
    | inl m ↦
        rw (e, evict_lru)
          (rw (m, evict_key) (omega (arith, ap length back, length-append rest (key ∷ []))))
    | inr (o, m) ↦
        rw (e, evict_lru)
          (rw (m, evict_key) (omega (arith, ap length back, length-append rest (key ∷ []))))
  ]
]

pub length-zero : (l : List Text) → length l ≤ 0 → l ≡ []
length-zero [] h = refl
length-zero (k ∷ l) h = absurd (omega arith)

-- With a round for each key the loop ends by its test.
pub evict_loop_done :
    (fuel required : ℕ) (c : CacheManager)
    → length c.lru_list ≤ fuel
    → is_over required (evict_loop fuel required c) ≡ false
unfolding evict_loop is_over
evict_loop_done zero required c h = rw (length-zero c.lru_list h, is_over) (ground arith)
evict_loop_done (suc fuel) required c h = elim (Bool-cases (is_over required c)) [
  | inl e ↦
      rw (e, evict_loop)
        (evict_loop_done fuel required (evict_lru c) (omega (arith, length-evict_lru c)))
  | inr e ↦ rw (e, evict_loop) e
]

pub evict_lru-config : (c : CacheManager) → (evict_lru c).config ≡ c.config
unfolding evict_lru evict_key
evict_lru-config c = elim (pop_back-cases c.lru_list) [
  | inl (n, e) ↦ rw (e, evict_lru)
  | inr (rest, key, back, e) ↦ elim (Option-cases (lookup key c.cache)) [
    | inl m ↦ rw (e, evict_lru) (rw (m, evict_key))
    | inr (o, m) ↦ rw (e, evict_lru) (rw (m, evict_key))
  ]
]

pub evict_loop-config :
    (fuel required : ℕ) (c : CacheManager) → (evict_loop fuel required c).config ≡ c.config
unfolding evict_loop
evict_loop-config zero required c = refl
evict_loop-config (suc fuel) required c = elim (Bool-cases (is_over required c)) [
  | inl e ↦ rw (e, evict_loop) (evict_loop-config fuel required (evict_lru c) ∙ evict_lru-config c)
  | inr e ↦ rw (e, evict_loop)
]

pub evict_if_needed-config :
    (required : ℕ) (c : CacheManager) → (evict_if_needed required c).config ≡ c.config
unfolding evict_if_needed
evict_if_needed-config required c = ground (arith, evict_loop-config (length c.lru_list) required c)

-- Eviction shrinks the cache.
