-- ===== src/Schema/Sqlite/Lists.antt =====
-- The lists of names of src/sqlite/SQLiteSchemaManager.cpp.
use sql_fuse.Base.{
  Bool, List, Option, Text, [], codes, get_or, if◌then◌else◌, map, none, not, pos, some, text_eq, ℕ,
  ℤ, ◌&&◌, ◌∷◌,
}
use sql_fuse.Cache.Types.{CacheManager}
use sql_fuse.Fs.Types.{Query, answer}
use sql_fuse.Schema.Server.{◌>>=◌, rows_or_none, contains, text_or}
use sql_fuse.Schema.Cached.{make_key, Fetched, unkept, listed, Lookup, cached_list}
use sql_fuse.Schema.Sqlite.Queries.{databases_sql, tables_sql, views_sql, triggers_sql}

-- A column of a row: what `getString` and `getInt64` read of it.
pub record Cell : Type 0 where
  pub text : Option Text
  pub number : ℤ

abbrev pub Row : Type 0
Row = List Cell

-- The rows that a statement gives, if it can be prepared.
abbrev pub Server : Type 0
Server = Text → Option (List Row)

abbrev pub cell : Row → ℕ → Cell
cell row i = get_or row i (record { text = none; number = pos 0 })

-- `getString`: a null is the empty text.
abbrev pub string_at : Row → ℕ → Text
string_at row i = text_or [] (cell row i).text

abbrev pub strings_at : ℕ → List Row → List Text
strings_at i rows = map (λ row. string_at row i) rows

abbrev pub execute : Option Server → Text → List Row
execute none sql = []
execute (some conn) sql = rows_or_none (conn sql)

-- Without a connection nothing is kept; a statement that cannot be prepared gives an empty list, which is
-- kept.
abbrev pub fetch_names : Option Server → Text → Fetched
fetch_names none sql = unkept []
fetch_names (some conn) sql = listed (strings_at 0 (rows_or_none (conn sql)))

abbrev pub attached : List Text → List Text
attached [] = []
attached (name ∷ names) =
    if not (text_eq name (codes "main")) && not (text_eq name (codes "temp"))
    then name ∷ attached names
    else attached names

unfoldable pub get_databases : Option Server → List Text
get_databases conn = codes "main" ∷ attached (strings_at 1 (execute conn databases_sql))

unfoldable pub database_exists : Option Server → Text → Bool
unfolding get_databases
database_exists conn database = contains database (get_databases conn)

unfoldable pub get_tables : Option Server → Text → ℕ → ℕ → CacheManager → Lookup
unfolding cached_list make_key tables_sql
get_tables conn database now later c =
    cached_list (make_key database (codes "tables") []) now later
      (fetch_names conn (tables_sql database)) c

-- `find(...) != end()` on a list that was looked up.
abbrev pub listed_in : Text → Lookup → Option (CacheManager × Query Bool)
listed_in name none = none
listed_in name (some (c, names)) = some (c, (do ns ← names; answer (contains name ns)))

unfoldable pub table_exists :
    Option Server → Text → Text → ℕ → ℕ → CacheManager → Option (CacheManager × Query Bool)
unfolding get_tables
table_exists conn database table now later c =
    listed_in table (get_tables conn database now later c)

unfoldable pub get_views : Option Server → Text → ℕ → ℕ → CacheManager → Lookup
unfolding cached_list make_key views_sql
get_views conn database now later c =
    cached_list (make_key database (codes "views") []) now later
      (fetch_names conn (views_sql database)) c

unfoldable pub get_procedures : Text → List Text
get_procedures database = []

unfoldable pub get_functions : Text → List Text
get_functions database = []

unfoldable pub get_triggers : Option Server → Text → List Text
unfolding triggers_sql
get_triggers conn database = strings_at 0 (execute conn (triggers_sql database))
