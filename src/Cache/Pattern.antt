-- ===== src/Cache/Pattern.antt =====
-- `matchesPattern` of src/CacheManager.cpp: a key against a pattern with a star.
use sql_fuse.Base.{
  Bool, Option, Text, [], drop, false, if◌then◌else◌, is_empty, length, ltb, none, not, pop_back,
  some, suc, take, text_eq, true, ℕ, ◌&&◌, ◌-◌, ◌==◌, ◌∷◌,
}

-- `key.compare(0, prefix.size(), prefix) == 0`.
unfoldable pub has_prefix : Text → Text → Bool
unfolding text_eq
has_prefix prefix key = text_eq (take (length prefix) key) prefix

-- `key.compare(key.size() - suffix.size(), suffix.size(), suffix) == 0`, where `key` is as long.
unfoldable pub has_suffix : Text → Text → Bool
has_suffix suffix key = text_eq (drop (length key - length suffix) key) suffix

-- `pattern.find('*')`.
unfoldable pub find_star : Text → Option ℕ
find_star [] = none
find_star (c ∷ s) = elim (c == b'*') [
  | true ↦ some 0
  | false ↦ elim (find_star s) [ none ↦ none | some i ↦ some (suc i) ]
]

match_around : Text → Text → Text → Bool
unfolding has_prefix has_suffix
match_around before after key =
    if not (is_empty before) && not (has_prefix before key)
    then false
    else if not (is_empty after)
    then (if ltb (length key) (length after) then false else has_suffix after key)
    else true

match_inner : Text → Text → Bool
unfolding match_around find_star
match_inner key pattern = elim (find_star pattern) [
  | some star_pos ↦ match_around (take star_pos pattern) (drop (suc star_pos) pattern) key
  | none ↦ text_eq key pattern
]

unfoldable pub matches_pattern : Text → Text → Bool
unfolding match_inner has_prefix
matches_pattern key pattern = elim (pop_back pattern) [
  | none ↦ true
  | some (prefix, last) ↦ if last == b'*' then has_prefix prefix key else match_inner key pattern
]
