-- ===== src/Cache/Get.antt =====
-- What `CacheManager::get` (src/CacheManager.cpp) returns, and what it keeps.
use sql_fuse.Base.{
  Bool-cases, List, Option, Option-cases, Text, add64, ap, arith, by_if, if◌then◌else◌, inl, inr,
  insert-Distinct, keys, leb, lookup, lookup-erase, lookup-insert, mem, mem-keys, mem-keys-insert,
  mem-remove, none, refl, remove, remove-Distinct, some, sym, text_eq, text_eq_iff, text_eq_refl,
  text_eq_sound, true, word, ℕ, ◌%◌, ◌∙◌, ◌≡◌, ◌≤◌,
}
use sql_fuse.Cache.Types.{CacheEntry, CacheConfig, CacheManager}
use sql_fuse.Cache.Lru.{lru_erase, lru_push}
use sql_fuse.Cache.Read.{miss, hit, get_entry, get}
use sql_fuse.Cache.Valid.{
  IsValid, IsValid-mem, total-insert_old, dropped, drop_entry-dropped, dropped-IsValid,
}

-- What a cache answers: the content stored for the key, if the cache is on and the entry is young.
abbrev pub young : ℕ → Option CacheEntry → Option Text
young now none = none
young now (some entry) = if leb entry.expires now then none else some entry.content

abbrev pub answer : Text → ℕ → CacheManager → Option Text
answer key now c = if c.config.enabled then young now (lookup key c.cache) else none

miss-IsValid : {c : CacheManager} → IsValid c → IsValid (miss c)
unfolding miss
miss-IsValid v = record {
  distinct = v.distinct;
  lru_distinct = v.lru_distinct;
  listed = v.listed;
  mapped = v.mapped;
  counted = v.counted;
}

-- A key that moves to the front.
unfoldable pub touched : Text → CacheManager → CacheManager
unfolding lru_push
touched key c = lru_push key (record c { lru_list = remove key c.lru_list })

pub touched-IsValid :
    {c : CacheManager} (k : Text) → IsValid c → mem k (keys c.cache) ≡ true → IsValid (touched k c)
unfolding touched mem
touched-IsValid {c} k v h = record {
  distinct = v.distinct;
  lru_distinct = (
    ground (arith, mem-remove k k c.lru_list, text_eq_refl k),
    remove-Distinct k c.lru_list v.lru_distinct,
  );
  listed = λ j. ground (arith, mem-remove k j c.lru_list, v.listed j, text_eq_iff k j);
  mapped = λ j.
      ground
        (arith, mem-remove k j c.lru_list, v.mapped j, v.mapped k, v.listed k, text_eq_iff k j);
  counted = v.counted;
}

hit-IsValid :
    {c : CacheManager} (k : Text) {e : CacheEntry}
    → IsValid c
    → lookup k c.cache ≡ some e
    → IsValid (hit k e c)
unfolding hit
hit-IsValid {c} k {e} v h =
    let e' : CacheEntry = record e { hits = add64 e.hits 1 } in
    record {
      distinct = insert-Distinct k e' c.cache v.distinct;
      lru_distinct = v.lru_distinct;
      listed = λ j.
          ground (
            arith,
            v.listed j,
            mem-keys-insert k j e' c.cache,
            text_eq_iff k j,
            mem-keys k c.cache,
          );
      mapped = v.mapped;
      counted =
          rw v.counted (ap (λ t. t % word) (omega (arith, total-insert_old k c.cache e' e h)));
    }

lru_erase-mem :
    {c : CacheManager} (k : Text) {e : CacheEntry}
    → IsValid c
    → lookup k c.cache ≡ some e
    → lru_erase k c ≡ some (record c { lru_list = remove k c.lru_list })
unfolding lru_erase
lru_erase-mem {c} k v h = let (a, b) = IsValid-mem k v h in rw (a, b)

-- From now on the same entries are young.
abbrev Keeps : ℕ → List (Text × CacheEntry) → List (Text × CacheEntry) → Type 0
Keeps now m m' =
    (j : Text) (later : ℕ) → now ≤ later → young later (lookup j m') ≡ young later (lookup j m)

dropped-Keeps :
    (c : CacheManager) (k : Text) {e : CacheEntry} (now : ℕ)
    → lookup k c.cache ≡ some e
    → leb e.expires now ≡ true
    → Keeps now c.cache (dropped k e c).cache
unfolding dropped
dropped-Keeps c k {e} now h old j later after = rw (lookup-erase k j c.cache) (
    by_if (λ o. young later o ≡ young later (lookup j c.cache)) (text_eq k j)
      (λ same. rw (sym (text_eq_sound k j same), h) (ground (arith, old, after))) (λ other. refl))

hit-Keeps :
    (c : CacheManager) (k : Text) {e : CacheEntry} (now : ℕ)
    → lookup k c.cache ≡ some e
    → Keeps now c.cache (hit k e (touched k c)).cache
unfolding hit touched lru_push
hit-Keeps c k {e} now h j later after = rw (lookup-insert k j _ c.cache) (
    by_if (λ o. young later o ≡ young later (lookup j c.cache)) (text_eq k j)
      (λ same. rw (sym (text_eq_sound k j same), h) refl) (λ other. refl))

get_entry-young :
    (key : Text) (now : ℕ) (c : CacheManager)
    → IsValid c
    → (c' : CacheManager) × (get_entry key now c (lookup key c.cache)
        ≡ some (c', young now (lookup key c.cache)))
      × IsValid c'
      × (c'.config ≡ c.config)
      × Keeps now c.cache c'.cache
unfolding touched miss hit dropped lru_push
get_entry-young key now c v = elim (Option-cases (lookup key c.cache)) [
  | inl e ↦ (miss c, rw e (unfold get_entry in refl), miss-IsValid v, refl, (λ j later after. refl))
  | inr (entry, e) ↦ elim (Bool-cases (leb entry.expires now)) [
    | inl old ↦ (
      miss (dropped key entry c),
      rw e (unfold get_entry in rw (old, drop_entry-dropped key v e) refl),
      miss-IsValid (dropped-IsValid key v e),
      refl,
      dropped-Keeps c key now e old,
    )
    | inr new ↦ (
      hit key entry (touched key c),
      rw e (unfold get_entry touched in rw (new, lru_erase-mem key v e) refl),
      hit-IsValid key (touched-IsValid key v (ground (arith, mem-keys key c.cache))) e,
      refl,
      hit-Keeps c key now e,
    )
  ]
]

-- A `get`, with what the cache answers from then on.
pub get-kept :
    (key : Text) (now : ℕ) (c : CacheManager)
    → IsValid c
    → (c' : CacheManager) × (get key now c ≡ some (c', answer key now c))
      × IsValid c'
      × (c'.config ≡ c.config)
      × ((j : Text) (later : ℕ) → now ≤ later → answer j later c' ≡ answer j later c)
unfolding get
get-kept key now c v =
    let (c', e, v', same, keeps) = get_entry-young key now c v in
    elim (Bool-cases c.config.enabled) [
      | inr off ↦ (c, simp off, v, refl, λ j later after. refl)
      | inl on ↦
          let still_on : c'.config.enabled ≡ true = ap (λ (x : CacheConfig). x.enabled) same ∙ on in
          (c', simp on e, v', same, λ j later after. simp (on, still_on) (keeps j later after))
    ]

-- On a consistent cache `get` runs no erase through a missing iterator, answers with the content
-- of the key if the cache is on and holds it unexpired and with nothing otherwise, and leaves
-- the cache consistent and its configuration as it was.
pub get-answer :
    (key : Text) (now : ℕ) (c : CacheManager)
    → IsValid c
    → (c' : CacheManager) × (get key now c ≡ some (c', answer key now c))
      × IsValid c'
      × (c'.config ≡ c.config)
get-answer key now c v = let (c', e, v', same, keeps) = get-kept key now c v in (c', e, v', same)
