-- ===== src/Cache/Valid.antt =====
-- The invariant of src/CacheManager.cpp: the three containers hold the same keys, once each, and
-- `currentSize` is the sum of the sizes of the entries.
use sql_fuse.Base.{
  Distinct, List, Text, [], arith, erase, erase-Distinct, false, insert, keys, lookup, mem,
  mem-keys, mem-keys-erase, mem-remove, none, refl, remove, remove-Distinct, some, sub64, sub64-mod,
  text_eq_iff, true, word, ℕ, ◌%◌, ◌+◌, ◌∷◌, ◌≡◌, ◌≤◌,
}
use sql_fuse.Cache.Types.{CacheEntry, CacheManager}
use sql_fuse.Cache.Lru.{drop_entry}

abbrev pub total : List (Text × CacheEntry) → ℕ
total [] = 0
total ((k, e) ∷ m) = e.size + total m

pub record IsValid (c : CacheManager) : Type 0 where
  pub distinct : Distinct (keys c.cache)
  pub lru_distinct : Distinct c.lru_list
  pub listed : (k : Text) → mem k c.lru_list ≡ mem k (keys c.cache)
  pub mapped : (k : Text) → mem k c.lru_map ≡ mem k c.lru_list
  pub counted : c.stats.current_size ≡ total c.cache % word

pub erase_absent :
    (k : Text) (m : List (Text × CacheEntry)) → mem k (keys m) ≡ false → erase k m ≡ m
unfolding erase mem
erase_absent k [] h = refl
erase_absent k ((i, w) ∷ m) h = ground (arith, erase_absent k m)

pub total-erase :
    (k : Text) (m : List (Text × CacheEntry)) (e : CacheEntry)
    → Distinct (keys m)
    → lookup k m ≡ some e
    → total m ≡ total (erase k m) + e.size
unfolding lookup erase
total-erase k [] e d h = ground arith
total-erase k ((i, w) ∷ m) e (n, d) h =
    ground (arith, text_eq_iff i k, total-erase k m e d, erase_absent k m)

pub total-insert_new :
    (k : Text) (m : List (Text × CacheEntry)) (e : CacheEntry)
    → lookup k m ≡ none
    → total (insert k e m) ≡ total m + e.size
unfolding lookup insert
total-insert_new k [] e h = omega arith
total-insert_new k ((i, w) ∷ m) e h = ground (arith, total-insert_new k m e)

pub total-insert_old :
    (k : Text) (m : List (Text × CacheEntry)) (e o : CacheEntry)
    → lookup k m ≡ some o
    → total (insert k e m) + o.size ≡ total m + e.size
unfolding lookup insert
total-insert_old k [] e o h = ground arith
total-insert_old k ((i, w) ∷ m) e o h = ground (arith, total-insert_old k m e o)

pub total-lookup :
    (k : Text) (m : List (Text × CacheEntry)) (o : CacheEntry)
    → lookup k m ≡ some o
    → o.size ≤ total m
unfolding lookup
total-lookup k [] o h = ground arith
total-lookup k ((i, w) ∷ m) o h = ground (arith, total-lookup k m o)

-- A key with an entry has its place in the other two containers.
pub IsValid-mem :
    {c : CacheManager} (k : Text) {e : CacheEntry}
    → IsValid c
    → lookup k c.cache ≡ some e
    → (mem k c.lru_map ≡ true) × (mem k c.lru_list ≡ true)
IsValid-mem {c} k v h = ground (arith, v.mapped k, v.listed k, mem-keys k c.cache)

-- `drop_entry`, with the undefined behaviour gone.
unfoldable pub dropped : Text → CacheEntry → CacheManager → CacheManager
dropped key entry c = record c {
  cache = erase key c.cache;
  lru_list = remove key c.lru_list;
  lru_map = remove key c.lru_map;
  stats = record (c.stats) { current_size = sub64 c.stats.current_size entry.size };
}

pub drop_entry-dropped :
    {c : CacheManager} (k : Text) {e : CacheEntry}
    → IsValid c
    → lookup k c.cache ≡ some e
    → drop_entry k e c ≡ some (dropped k e c)
unfolding drop_entry dropped
drop_entry-dropped {c} k v h = let (a, b) = IsValid-mem k v h in rw (a, b)

pub dropped-IsValid :
    {c : CacheManager} (k : Text) {e : CacheEntry}
    → IsValid c
    → lookup k c.cache ≡ some e
    → IsValid (dropped k e c)
unfolding dropped
dropped-IsValid {c} k {e} v h = record {
  distinct = erase-Distinct k c.cache v.distinct;
  lru_distinct = remove-Distinct k c.lru_list v.lru_distinct;
  listed = λ j. ground (arith, mem-remove k j c.lru_list, mem-keys-erase k j c.cache, v.listed j);
  mapped = λ j. ground (arith, mem-remove k j c.lru_list, mem-remove k j c.lru_map, v.mapped j);
  counted =
      rw (v.counted, total-erase k c.cache e v.distinct h)
        (sub64-mod (total (erase k c.cache)) e.size);
}
