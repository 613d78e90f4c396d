-- ===== src/Cache/Samples.antt =====
-- A cache for the tests: two entries, in the order of their last use.
use sql_fuse.Base.{Text, [], codes, length, mem, refl, text_eq, true, ℕ, ◌∷◌}
use sql_fuse.Cache.Types.{CacheEntry, CacheManager}
use sql_fuse.Cache.Valid.{IsValid}

abbrev pub xyz : Text
xyz = codes "xyz"

abbrev sample_entry : Text → ℕ → CacheEntry
sample_entry content expires = record {
  content = content;
  created = 0;
  expires = expires;
  size = length content;
  hits = 0;
}

abbrev pub two : CacheManager
two = record {
  config = record {
    max_size_bytes = 20;
    data_ttl = 10;
    schema_ttl = 10;
    metadata_ttl = 10;
    enabled = true;
  };
  cache =
      (codes "db/a", sample_entry xyz 10)
      ∷ (codes "db/b", sample_entry (codes "0123456789abc") 12)
      ∷ [];
  lru_list = codes "db/a" ∷ codes "db/b" ∷ [];
  lru_map = codes "db/a" ∷ codes "db/b" ∷ [];
  stats = record {
    hits = 0;
    misses = 0;
    current_size = 16;
    max_size = 20;
    entry_count = 2;
    evictions = 0;
  };
}

pub two-IsValid : IsValid two
unfolding mem text_eq
two-IsValid = record {
  distinct = (refl, (refl, tt));
  lru_distinct = (refl, (refl, tt));
  listed = λ k. refl;
  mapped = λ k. refl;
  counted = refl;
}
