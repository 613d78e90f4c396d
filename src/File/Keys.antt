-- ===== src/File/Keys.antt =====
-- The cache keys of the files (`getCacheKey` of src/VirtualFile.cpp) against the patterns of
-- `invalidateTable` (src/CacheManager.cpp).
use sql_fuse.Base.{
  Bool-cases, Text, [], ap, append-nil, append_assoc, arith, codes, false, if◌then◌else◌, inl, inr,
  is_empty, length, length-append, lookup, refl, some, suc, true, ◌++◌, ◌+◌, ◌<◌, ◌∙◌, ◌∷◌, ◌≡◌,
  ◌≢◌,
}
use sql_fuse.Router.Types.{FileFormat, format_to_extension}
use sql_fuse.Router.Layout.{Node, TableItem, Scope, parsed}
use sql_fuse.Cache.Types.{CacheManager}
use sql_fuse.Cache.Valid.{IsValid}
use sql_fuse.Cache.Drop.{invalidate_table}
use sql_fuse.Cache.Pattern.{matches_pattern}
use sql_fuse.Cache.Matching.{matches_pattern-star}
use sql_fuse.Cache.Dropped.{invalidate_table-Takes, of_table}
use sql_fuse.File.Key.{get_cache_key}

-- The key of a file of a table, in the form of the first pattern of `invalidateTable`.
abbrev dotted : Text → Text → Text
dotted db t = db ++ (b'/' ∷ (t ++ b'.' ∷ []))

dotted-star : (db t : Text) → dotted db t ++ b'*' ∷ [] ≡ db ++ (codes "/" ++ (t ++ codes ".*"))
dotted-star db t = simp append_assoc

-- A key behind the table's name and a dot matches.
of_table-dotted : (db t rest : Text) → of_table db t (dotted db t ++ rest) ≡ true
of_table-dotted db t rest =
    let hit = (matches_pattern-star (dotted db t) (dotted db t ++ rest)).1 (rest, refl) in
    rw (← dotted-star db t, hit)

-- The text of a format behind its dot.
abbrev bare : FileFormat → Text
bare FileFormat.csv = codes "csv"
bare FileFormat.json = codes "json"
bare FileFormat.sql = codes "sql"
bare FileFormat.none = []

key-file :
    (db t : Text) (f : FileFormat)
    → f ≢ FileFormat.none
    → t ≢ []
    → get_cache_key (parsed (Node.table_file db t f)) ≡ dotted db t ++ bare f
unfolding get_cache_key format_to_extension
key-file db [] f h n = absurd (n refl)
key-file db (c ∷ t) FileFormat.none h n = absurd (h refl)
key-file db (c ∷ t) FileFormat.csv h n = simp append_assoc
key-file db (c ∷ t) FileFormat.json h n = simp append_assoc
key-file db (c ∷ t) FileFormat.sql h n = simp append_assoc

abbrev row_part : Text → Text
row_part id = if is_empty id then [] else codes "/rows/" ++ id

key-row :
    (db t id : Text) (f : FileFormat)
    → f ≢ FileFormat.none
    → t ≢ []
    → (rest : Text) × (get_cache_key (parsed (Node.table_row_file db t id f)) ≡ dotted db t ++ rest)
unfolding get_cache_key format_to_extension
key-row db [] id f h n = absurd (n refl)
key-row db (c ∷ t) id FileFormat.none h n = absurd (h refl)
key-row db (c ∷ t) id FileFormat.csv h n = (codes "csv" ++ row_part id, simp append_assoc)
key-row db (c ∷ t) id FileFormat.json h n = (codes "json" ++ row_part id, simp append_assoc)
key-row db (c ∷ t) id FileFormat.sql h n = (codes "sql" ++ row_part id, simp append_assoc)

-- The contents and the rows of a table have keys that `invalidateTable` of the table takes out.
pub of_table-content :
    (db t id : Text) (f : FileFormat)
    → f ≢ FileFormat.none
    → t ≢ []
    → (of_table db t (get_cache_key (parsed (Node.table_file db t f))) ≡ true)
      × (of_table db t (get_cache_key (parsed (Node.table_row_file db t id f))) ≡ true)
of_table-content db t id f h n =
    let (rest, e) = key-row db t id f h n in
    (rw (key-file db t f h n) (of_table-dotted db t (bare f)), rw e (of_table-dotted db t rest))

-- All the files of the metadata of a table share one key, and so do a global and a session variable
-- of one name.
pub get_cache_key_shared :
    (db t name : Text) (i j : TableItem) (s r : Scope)
    → (get_cache_key (parsed (Node.table_item db t i))
        ≡ get_cache_key (parsed (Node.table_item db t j)))
      × (get_cache_key (parsed (Node.variable_file s name))
          ≡ get_cache_key (parsed (Node.variable_file r name)))
unfolding get_cache_key
get_cache_key_shared db t name i j s r = (refl, refl)

length_le_of_star :
    (p key : Text) → length key < length p → matches_pattern key (p ++ b'*' ∷ []) ≡ false
length_le_of_star p key h = elim (Bool-cases (matches_pattern key (p ++ b'*' ∷ []))) [
  | inr e ↦ e
  | inl e ↦
      let (rest, same) = (matches_pattern-star p key).0 e in
      absurd (omega (arith, ap length same, length-append p rest))
]

abbrev metadata_key : Text → Text → Text
metadata_key db t = db ++ (b'/' ∷ t)

key-metadata :
    (db t : Text) (i : TableItem)
    → t ≢ []
    → get_cache_key (parsed (Node.table_item db t i)) ≡ metadata_key db t
unfolding get_cache_key
key-metadata db [] i n = absurd (n refl)
key-metadata db (c ∷ t) i n = simp append-nil

length-metadata_key : (db t : Text) → length (metadata_key db t) ≡ length db + suc (length t)
length-metadata_key db t = length-append db (b'/' ∷ t)

-- The three patterns, each behind a text that is longer than the key.
metadata-first :
    (db t : Text)
    → matches_pattern (metadata_key db t) (db ++ (codes "/" ++ (t ++ codes ".*"))) ≡ false
metadata-first db t = rw (← dotted-star db t) (
    length_le_of_star (dotted db t) (metadata_key db t) (
      omega (
        arith,
        length-metadata_key db t,
        length-append db (b'/' ∷ (t ++ b'.' ∷ [])),
        length-append t (b'.' ∷ []),
      )))

metadata-second :
    (db t : Text)
    → matches_pattern (metadata_key db t) (db ++ (codes "/" ++ (t ++ codes "/*"))) ≡ false
metadata-second db t =
    let p = db ++ (b'/' ∷ (t ++ b'/' ∷ [])) in
    let same : p ++ b'*' ∷ [] ≡ db ++ (codes "/" ++ (t ++ codes "/*")) = simp append_assoc in
    rw (← same) (
      length_le_of_star p (metadata_key db t) (
        omega (
          arith,
          length-metadata_key db t,
          length-append db (b'/' ∷ (t ++ b'/' ∷ [])),
          length-append t (b'/' ∷ []),
        )))

metadata-third :
    (db t : Text)
    → matches_pattern (metadata_key db t) (db ++ (codes "/tables/" ++ (t ++ codes "*"))) ≡ false
metadata-third db t =
    let p = db ++ (codes "/tables/" ++ t) in
    let same : p ++ b'*' ∷ [] ≡ db ++ (codes "/tables/" ++ (t ++ codes "*")) = simp append_assoc in
    rw (← same) (
      length_le_of_star p (metadata_key db t)
        (omega (arith, length-metadata_key db t, length-append db (codes "/tables/" ++ t))))

of_table-metadata :
    (db t : Text) (i : TableItem)
    → t ≢ []
    → of_table db t (get_cache_key (parsed (Node.table_item db t i))) ≡ false
of_table-metadata db t i n =
    rw (key-metadata db t i n, metadata-first db t, metadata-second db t, metadata-third db t)

-- `invalidateTable` of a table with a name, on a consistent cache, leaves what is stored for the
-- table's metadata files as it was.
pub invalidate_table-metadata :
    (db t : Text) (i : TableItem) (c : CacheManager)
    → IsValid c
    → t ≢ []
    → (c' : CacheManager) × (invalidate_table db t c ≡ some c')
      × (lookup (get_cache_key (parsed (Node.table_item db t i))) c'.cache
          ≡ lookup (get_cache_key (parsed (Node.table_item db t i))) c.cache)
invalidate_table-metadata db t i c v n =
    let (c', e, took) = invalidate_table-Takes db t c v in
    (c', e, took.kept _ ∙ rw (of_table-metadata db t i n) refl)
