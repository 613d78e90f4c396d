-- ===== src/Cache/Matching.antt =====
-- `matchesPattern` (src/CacheManager.cpp) on the patterns that the cache builds: a text and a star.
use sql_fuse.Base.{
  Text, [], arith, pop_back-concat, refl, take-append, text_eq_refl, true, ◌++◌, ◌↔◌, ◌∷◌, ◌≡◌,
}
use sql_fuse.Cache.Pattern.{has_prefix, matches_pattern}

has_prefix-append : (p rest : Text) → has_prefix p (p ++ rest) ≡ true
unfolding has_prefix
has_prefix-append p rest = rw (take-append p rest) (text_eq_refl p)

has_prefix_sound : (p key : Text) → has_prefix p key ≡ true → (rest : Text) × (key ≡ p ++ rest)
unfolding has_prefix
has_prefix_sound [] key h = (key, refl)
has_prefix_sound (a ∷ p) [] h = ground arith
has_prefix_sound (a ∷ p) (b ∷ key) h =
    let (rest, e) = has_prefix_sound p key (ground arith) in (rest, ground (arith, e))

-- A pattern that ends in a star matches exactly the keys that begin with what stands before it.
pub matches_pattern-star :
    (p key : Text)
    → (matches_pattern key (p ++ b'*' ∷ []) ≡ true) ↔ ((rest : Text) × (key ≡ p ++ rest))
unfolding matches_pattern
matches_pattern-star p key =
    rw (pop_back-concat p b'*', matches_pattern)
      (has_prefix_sound p key, λ h. rw (h.1) (has_prefix-append p h.0))
