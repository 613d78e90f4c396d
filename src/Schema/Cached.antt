-- ===== src/Schema/Cached.antt =====
-- The lists of names that the schema managers keep in the cache, as lines of one text.
use sql_fuse.Base.{
  List, Option, Text, [], codes, if◌then◌else◌, is_empty, none, some, ℕ, ◌++◌, ◌==◌, ◌∷◌,
}
use sql_fuse.Cache.Types.{CacheManager, schema}
use sql_fuse.Cache.Lru.{◌>>=◌}
use sql_fuse.Cache.Read.{get}
use sql_fuse.Cache.Write.{put_category}
use sql_fuse.Fs.Types.{Query, answer, throws}

-- `CacheManager::makeKey`.
unfoldable pub make_key : Text → Text → Text → Text
make_key database object suffix =
    let key = if is_empty object then database else database ++ (codes "/" ++ object) in
    if is_empty suffix then key else key ++ (codes "/" ++ suffix)

-- The stream to which each name is written with a line feed after it.
unfoldable pub join_lines : List Text → Text
join_lines [] = []
join_lines (name ∷ names) = name ++ b'\n' ∷ join_lines names

abbrev pub add_line : Text → List Text → List Text
add_line line lines = if is_empty line then lines else line ∷ lines

-- The `std::getline` loop, without the empty lines.
unfoldable pub lines_from : Text → Text → List Text
lines_from line [] = add_line line []
lines_from line (c ∷ s) =
    let next = lines_from [] s in
    let more = lines_from (line ++ c ∷ []) s in if c == b'\n' then add_line line next else more

abbrev pub lines_of : Text → List Text
lines_of text = lines_from [] text

-- What the database gives for a list: an exception, a list that is returned without being kept, or
-- a list that is kept.
pub data Fetched : Type 0 where
  fails : Fetched
  unkept listed : List Text → Fetched

abbrev pub Lookup : Type 0
Lookup = Option (CacheManager × Query (List Text))

unfoldable pub keep_fetched : Text → ℕ → Fetched → CacheManager → Lookup
unfolding join_lines
keep_fetched key later fails c = some (c, throws)
keep_fetched key later (unkept names) c = some (c, answer names)
keep_fetched key later (listed names) c =
    put_category key (join_lines names) schema later c >>= λ c'. some (c', answer names)

unfoldable pub found : Text → ℕ → Fetched → CacheManager → Option Text → Lookup
unfolding keep_fetched
found key later fetched c none = keep_fetched key later fetched c
found key later fetched c (some cached) = some (c, answer (lines_of cached))

-- The body of `getDatabases`, `getTables` and `getViews`, with the times at which the cache reads
-- the clock. `none` is undefined behaviour in the cache.
unfoldable pub cached_list : Text → ℕ → ℕ → Fetched → CacheManager → Lookup
unfolding found
cached_list key now later fetched c = get key now c >>= λ r. found key later fetched r.0 r.1
