-- ===== src/Cache/Tests.antt =====
-- The theorems on src/CacheManager.cpp at a cache with two entries, and calls that are computed.
use sql_fuse.Base.{
  List, Text, arith, codes, if◌then◌else◌, leb, lookup, mem, none, pop_back, refl, remove,
  replicate, some, true, ◌+◌, ◌<◌, ◌∷◌, ◌≡◌, ◌≢◌, ◌≤◌, ◌⊎◌,
}
use sql_fuse.Cache.Types.{CacheManager}
use sql_fuse.Cache.Samples.{two, two-IsValid, xyz}
use sql_fuse.Cache.Pattern.{matches_pattern}
use sql_fuse.Cache.Read.{get}
use sql_fuse.Cache.Write.{put}
use sql_fuse.Cache.Drop.{invalidate_table}
use sql_fuse.Cache.Valid.{IsValid, total}
use sql_fuse.Cache.Get.{answer, get-answer}
use sql_fuse.Cache.Put.{put-IsValid, answer-put, put_bounded, put_oversized}
use sql_fuse.Cache.Policy.{IsPrefix, put-lru_list}
use sql_fuse.Cache.Dropped.{Takes, of_table, invalidate_table-Takes}

abbrev a : Text
a = codes "db/a"

abbrev large : Text
large = replicate 30 b'x'

get-answer_example :
    (c' : CacheManager) × (get a 5 two ≡ some (c', answer a 5 two))
    × IsValid c'
    × (c'.config ≡ two.config)
get-answer_example = get-answer a 5 two two-IsValid

put-IsValid_example : (c' : CacheManager) × (put a xyz none 5 two ≡ some c') × IsValid c'
put-IsValid_example = put-IsValid a xyz none 5 two two-IsValid

-- The cache after a `put`.
abbrev after : Text → CacheManager
after content = (put-IsValid a content none 5 two two-IsValid).0

abbrev done : (content : Text) → put a content none 5 two ≡ some (after content)
done content = (put-IsValid a content none 5 two two-IsValid).1

answer-put_example :
    (a ≡ a → answer a 6 (after xyz) ≡ (if leb (5 + 10) 6 then none else some xyz))
    × (a ≢ a → (answer a 6 (after xyz) ≡ answer a 6 two) ⊎ (answer a 6 (after xyz) ≡ none))
answer-put_example = answer-put a xyz none 5 two two-IsValid refl (done xyz) a 6

put_bounded_example : total (after xyz).cache ≤ 20
put_bounded_example =
    put_bounded a xyz none 5 two two-IsValid refl (done xyz) (omega arith) (omega arith)
      (omega arith)

put_oversized_example : 20 < total (after large).cache
put_oversized_example = put_oversized a large none 5 two two-IsValid refl (done large) (omega arith)

put-lru_list_example :
    (c' : CacheManager) × (kept : List Text) × (put a xyz none 5 two ≡ some c')
    × IsPrefix kept two.lru_list
    × (c'.lru_list ≡ a ∷ remove a kept)
    × ((j : Text) → j ≢ a → mem j kept ≡ true → lookup j c'.cache ≡ lookup j two.cache)
put-lru_list_example = put-lru_list a xyz none 5 two two-IsValid refl

invalidate_table-Takes_example :
    (c' : CacheManager) × (invalidate_table (codes "db") (codes "t") two ≡ some c')
    × Takes (of_table (codes "db") (codes "t")) two c'
invalidate_table-Takes_example = invalidate_table-Takes (codes "db") (codes "t") two two-IsValid

-- What stands before a star and what stands after it may overlap in a key.
matches_overlap : matches_pattern (codes "aba") (codes "ab*ba") ≡ true
unfolding matches_pattern pop_back
matches_overlap = refl
