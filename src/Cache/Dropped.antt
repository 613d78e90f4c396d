-- ===== src/Cache/Dropped.antt =====
-- `remove`, `invalidate`, `pruneExpired` and `clear` (src/CacheManager.cpp): exactly which entries
-- they take out.
use sql_fuse.Base.{
  Bool, Distinct, List, Option, Option-cases, Text, [], arith, codes, false, if◌then◌else◌, inl,
  inr, keys, leb, length, lookup, lookup-erase, mem, mem-keys, none, refl, some, text_eq,
  text_eq_iff, ℕ, ◌++◌, ◌||◌, ◌∙◌, ◌∷◌, ◌≡◌,
}
use sql_fuse.Cache.Types.{CacheEntry, CacheManager}
use sql_fuse.Cache.Pattern.{matches_pattern}
use sql_fuse.Cache.Drop.{
  count_entries, drop_found, remove_key, drop_all, select, drop_where, invalidate, prune_expired,
  invalidate_table,
}
use sql_fuse.Cache.Valid.{IsValid, dropped, drop_entry-dropped, dropped-IsValid}

-- The outcome of an operation that takes out the keys that pass a test.
pub record Takes (gone : Text → Bool) (c c' : CacheManager) : Type 0 where
  pub valid : IsValid c'
  pub config : c'.config ≡ c.config
  pub kept : (j : Text) → lookup j c'.cache ≡ (if gone j then none else lookup j c.cache)

Takes-dropped :
    {c : CacheManager} (k : Text) {e : CacheEntry}
    → IsValid c
    → lookup k c.cache ≡ some e
    → Takes (text_eq k) c (dropped k e c)
Takes-dropped {c} k v h = record {
  valid = dropped-IsValid k v h;
  config = unfold dropped in refl;
  kept = λ j. unfold dropped in lookup-erase k j c.cache;
}

drop_found-Takes :
    (k : Text) (c : CacheManager)
    → IsValid c
    → (c' : CacheManager) × (drop_found k c (lookup k c.cache) ≡ some c') × Takes (text_eq k) c c'
drop_found-Takes k c v = elim (Option-cases (lookup k c.cache)) [
  | inl e ↦ (
    c,
    rw e (unfold drop_found in refl),
    record { valid = v; config = refl; kept = λ j. ground (arith, text_eq_iff k j, e) },
  )
  | inr (o, e) ↦
      (dropped k o c, rw e (unfold drop_found in drop_entry-dropped k v e), Takes-dropped k v e)
]

drop_all-Takes :
    (ks : List Text) (c : CacheManager)
    → IsValid c
    → (c' : CacheManager) × (drop_all ks c ≡ some c') × Takes (λ j. mem j ks) c c'
unfolding drop_all mem
drop_all-Takes [] c v = (c, refl, record { valid = v; config = refl; kept = λ j. refl })
drop_all-Takes (k ∷ ks) c v =
    let (c₁, e₁, t₁) = drop_found-Takes k c v in
    let (c₂, e₂, t₂) = drop_all-Takes ks c₁ t₁.valid in
    (
      c₂,
      rw (e₁, e₂) refl,
      record {
        valid = t₂.valid;
        config = t₂.config ∙ t₁.config;
        kept = λ j. ground (arith, t₂.kept j, t₁.kept j);
      },
    )

-- The keys that the first loop collects.
abbrev pub passes : (Text → CacheEntry → Bool) → Text → Option CacheEntry → Bool
passes test j none = false
passes test j (some e) = test j e

mem-select :
    (test : Text → CacheEntry → Bool) (j : Text) (m : List (Text × CacheEntry))
    → Distinct (keys m)
    → mem j (select test m) ≡ passes test j (lookup j m)
unfolding select mem lookup
mem-select test j [] d = refl
mem-select test j ((i, e) ∷ m) (n, d) =
    ground (arith, mem-select test j m d, text_eq_iff i j, mem-keys j m)

count_entries-IsValid : {c : CacheManager} → IsValid c → IsValid (count_entries c)
count_entries-IsValid v = record {
  distinct = v.distinct;
  lru_distinct = v.lru_distinct;
  listed = v.listed;
  mapped = v.mapped;
  counted = v.counted;
}

drop_where-Takes :
    (test : Text → CacheEntry → Bool) (c : CacheManager)
    → IsValid c
    → (c' : CacheManager) × (drop_where test c ≡ some c')
      × Takes (λ j. passes test j (lookup j c.cache)) c c'
      × (c'.stats.entry_count ≡ length c'.cache)
unfolding drop_where
drop_where-Takes test c v =
    let (c₁, e, t) = drop_all-Takes (select test c.cache) c v in
    (
      count_entries c₁,
      rw e refl,
      record {
        valid = count_entries-IsValid t.valid;
        config = t.config;
        kept = λ j. rw (← mem-select test j c.cache v.distinct) (t.kept j);
      },
      refl,
    )

-- On a consistent cache `invalidate` runs no erase through a missing iterator; it takes out
-- exactly the keys that match the pattern, and counts the entries that are left.
invalidate-Takes :
    (pattern : Text) (c : CacheManager)
    → IsValid c
    → (c' : CacheManager) × (invalidate pattern c ≡ some c')
      × Takes (λ j. matches_pattern j pattern) c c'
      × (c'.stats.entry_count ≡ length c'.cache)
unfolding invalidate
invalidate-Takes pattern c v =
    let (c', e, t, n) = drop_where-Takes (λ key entry. matches_pattern key pattern) c v in
    (
      c',
      e,
      record {
        valid = t.valid;
        config = t.config;
        kept = λ j. ground (arith, t.kept j, Option-cases (lookup j c.cache));
      },
      n,
    )

-- On a consistent cache `pruneExpired` runs no erase through a missing iterator; it takes out
-- exactly the entries that have expired, and counts the entries that are left.
pub prune_expired-Takes :
    (now : ℕ) (c : CacheManager)
    → IsValid c
    → (c' : CacheManager) × (prune_expired now c ≡ some c')
      × Takes (λ j. passes (λ key entry. leb entry.expires now) j (lookup j c.cache)) c c'
      × (c'.stats.entry_count ≡ length c'.cache)
unfolding prune_expired
prune_expired-Takes now c v = drop_where-Takes (λ key entry. leb entry.expires now) c v

-- On a consistent cache `remove` runs no erase through a missing iterator, and takes out exactly
-- the key.
pub remove_key-Takes :
    (k : Text) (c : CacheManager)
    → IsValid c
    → (c' : CacheManager) × (remove_key k c ≡ some c') × Takes (text_eq k) c c'
unfolding remove_key
remove_key-Takes k c v = elim (Option-cases (lookup k c.cache)) [
  | inl e ↦ (
    c,
    rw (e, remove_key) refl,
    record { valid = v; config = refl; kept = λ j. ground (arith, text_eq_iff k j, e) },
  )
  | inr (o, e) ↦
      let t = Takes-dropped k v e in
      (
        count_entries (dropped k o c),
        rw (e, remove_key) (rw (drop_entry-dropped k v e) refl),
        record { valid = count_entries-IsValid t.valid; config = t.config; kept = t.kept },
      )
]

-- The three patterns of `invalidateTable`.
abbrev pub of_table : Text → Text → Text → Bool
of_table database table key =
    matches_pattern key (database ++ (codes "/" ++ (table ++ codes ".*")))
    || (matches_pattern key (database ++ (codes "/" ++ (table ++ codes "/*")))
        || matches_pattern key (database ++ (codes "/tables/" ++ (table ++ codes "*"))))

Takes-trans :
    {c d e : CacheManager} {p q : Text → Bool}
    → Takes p c d
    → Takes q d e
    → Takes (λ j. p j || q j) c e
Takes-trans {p} {q} t u = record {
  valid = u.valid;
  config = u.config ∙ t.config;
  kept = λ j. ground (arith, t.kept j, u.kept j);
}

-- On a consistent cache `invalidateTable` runs no erase through a missing iterator, and takes
-- out exactly the keys that match one of its three patterns.
pub invalidate_table-Takes :
    (database table : Text) (c : CacheManager)
    → IsValid c
    → (c' : CacheManager) × (invalidate_table database table c ≡ some c')
      × Takes (of_table database table) c c'
unfolding invalidate_table
invalidate_table-Takes database table c v =
    let (c₁, e₁, t₁, _) = invalidate-Takes _ c v in
    let (c₂, e₂, t₂, _) = invalidate-Takes _ c₁ t₁.valid in
    let (c₃, e₃, t₃, _) = invalidate-Takes _ c₂ t₂.valid in
    (c₃, rw (e₁, e₂, e₃) refl, Takes-trans t₁ (Takes-trans t₂ t₃))
