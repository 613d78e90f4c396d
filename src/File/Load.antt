-- ===== src/File/Load.antt =====
-- `getContent`, `getSize` and `loadContent` of src/VirtualFile.cpp.
use sql_fuse.Base.{Option, Text, [], if◌then◌else◌, none, some, true, ℕ, ◌∷◌}
use sql_fuse.Cache.Lru.{◌>>=◌}
use sql_fuse.Router.Types.{NodeType, FileFormat, ParsedPath}
use sql_fuse.Cache.Types.{CacheManager, contents}
use sql_fuse.Cache.Read.{get}
use sql_fuse.Cache.Write.{put_category}
use sql_fuse.File.Types.{VirtualFile}
use sql_fuse.File.Key.{get_cache_key}

-- What a generator does: it returns a text or throws, and may have used the cache.
pub data Outcome : Type 0 where
  text throws : Text → Outcome

abbrev pub Generator : Type 0
Generator = ParsedPath → CacheManager → CacheManager × Outcome

-- The generators of the class and of the backends.
pub record Generators : Type 0 where
  pub table_csv : Generator
  pub table_json : Generator
  pub table_sql : Generator
  pub table_schema : Generator
  pub table_indexes : Generator
  pub table_stats : Generator
  pub row_json : Generator
  pub view_content : Generator
  pub procedure_sql : Generator
  pub function_sql : Generator
  pub trigger_sql : Generator
  pub server_info : Generator
  pub database_info : Generator
  pub user_info : Generator
  pub variable_content : Generator

-- `m_content = "";`.
abbrev nothing : Generator
nothing p c = (c, text [])

generate_table : Generators → FileFormat → Generator
generate_table g FileFormat.csv = g.table_csv
generate_table g FileFormat.json = g.table_json
generate_table g FileFormat.sql = g.table_sql
generate_table g _ = nothing

-- The `switch` of `loadContent`.
unfoldable pub generate : Generators → FileFormat → NodeType → Generator
unfolding generate_table
generate g format NodeType.table_file = generate_table g format
generate g format NodeType.table_schema = g.table_schema
generate g format NodeType.table_indexes = g.table_indexes
generate g format NodeType.table_stats = g.table_stats
generate g format NodeType.table_row_file = g.row_json
generate g format NodeType.view_file = g.view_content
generate g format NodeType.procedure_file = g.procedure_sql
generate g format NodeType.function_file = g.function_sql
generate g format NodeType.trigger_file = g.trigger_sql
generate g format NodeType.server_info = g.server_info
generate g format NodeType.database_info = g.database_info
generate g format NodeType.user_file = g.user_info
generate g format NodeType.variable_file = g.variable_content
generate g format _ = nothing

abbrev pub loaded : Text → VirtualFile → VirtualFile
loaded content f = record f { content = content; content_loaded = true }

-- `if (!m_content.empty()) m_cache.put(...)`.
unfoldable pub keep : Text → Text → ℕ → CacheManager → Option CacheManager
keep key [] now c = some c
keep key (b ∷ s) now c = put_category key (b ∷ s) contents now c

unfoldable pub finish :
    ℕ → VirtualFile → CacheManager → Outcome → Option (CacheManager × VirtualFile)
unfolding keep
finish now f c (text content) = do
  c' ← keep (get_cache_key f.path) content now c
  some (c', loaded content f)
finish now f c (throws message) = some (c, record (loaded [] f) { last_error = message })

unfoldable pub load_miss :
    Generators → ℕ → VirtualFile → CacheManager → Option Text → Option (CacheManager × VirtualFile)
load_miss g now f c (some cached) = some (c, loaded cached f)
load_miss g now f c none =
    let (c', outcome) = generate g f.path.format f.path.type f.path c in finish now f c' outcome

unfoldable pub load_content :
    Generators → ℕ → VirtualFile → CacheManager → Option (CacheManager × VirtualFile)
unfolding load_miss finish
load_content g now f c = do
  (c', cached) ← get (get_cache_key f.path) now c
  load_miss g now f c' cached

-- `getContent`: the content is `content` of the file that is returned.
unfoldable pub get_content :
    Generators → ℕ → VirtualFile → CacheManager → Option (CacheManager × VirtualFile)
unfolding load_content
get_content g now f c = if f.content_loaded then some (c, f) else load_content g now f c
