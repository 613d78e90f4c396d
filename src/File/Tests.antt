-- ===== src/File/Tests.antt =====
-- The theorems on src/VirtualFile.cpp at concrete files.
use sql_fuse.Base.{[], arith, codes, false, lookup, refl, some, text_eq, true, ◌≡◌}
use sql_fuse.Router.Types.{NodeType, FileFormat, ParsedPath}
use sql_fuse.Router.Layout
use sql_fuse.Router.Layout.{Node, parsed}
use sql_fuse.Cache.Types.{CacheManager}
use sql_fuse.Cache.Samples.{two, two-IsValid}
use sql_fuse.Cache.Valid.{IsValid}
use sql_fuse.Cache.Get.{answer}
use sql_fuse.Cache.Drop.{invalidate_table}
use sql_fuse.File.Types.{ok, VirtualFile, new_file}
use sql_fuse.File.Key.{get_cache_key}
use sql_fuse.File.Keys.{invalidate_table-metadata}
use sql_fuse.File.Load.{generate, load_content, loaded}
use sql_fuse.File.Loads.{shown, load_content-shown, load_content-load_content}
use sql_fuse.File.Flush.{Handler, Handlers, handle, flush}
use sql_fuse.File.Flushed.{IsForgotten, flush-IsForgotten}
use sql_fuse.File.Samples.{constants, constant-Keeps}

abbrev table : ParsedPath
table = parsed (Node.table_file (codes "db") (codes "t") FileFormat.csv)

abbrev file : VirtualFile
file = new_file table

abbrev written : VirtualFile
written = record file { write_buffer = codes "abc"; modified = true }

load_content-shown_example :
    (c₁ c' : CacheManager) × (f' : VirtualFile) × (load_content constants 5 file two
      ≡ some (c', f'))
    × IsValid c'
    × (f'.content
        ≡ shown
            (answer (get_cache_key table) 5 two)
            (generate constants FileFormat.csv NodeType.table_file table c₁).1)
    × (f'.content_loaded ≡ true)
    × (f'.modified ≡ false)
unfolding generate
load_content-shown_example = load_content-shown constants 5 file two constant-Keeps two-IsValid

abbrev schema_path : ParsedPath
schema_path = parsed (Node.table_item (codes "db") (codes "t") Layout.schema)

abbrev indexes_path : ParsedPath
indexes_path = parsed (Node.table_item (codes "db") (codes "t") Layout.indexes)

-- The file of the indexes shows the schema.
load_content-load_content_example :
    (c' c'' : CacheManager) × (load_content constants 5 (new_file schema_path) two
      ≡ some (c', loaded (codes "abc") (new_file schema_path)))
    × (load_content constants 6 (new_file indexes_path) c'
        ≡ some (c'', loaded (codes "abc") (new_file indexes_path)))
unfolding generate get_cache_key lookup text_eq
load_content-load_content_example =
    load_content-load_content constants constants schema_path indexes_path 5 6 two b'a' (codes "bc")
      constant-Keeps (λ c₁. refl) two-IsValid refl refl refl (omega arith)

abbrev accept : Handler
accept f c = (c, f.last_error, ok tt)

abbrev accepting : Handlers
accepting = record { table_write = accept; row_write = accept }

flush-IsForgotten_example :
    (c' : CacheManager) × (f' : VirtualFile) × (flush accepting written two ≡ some (c', f', ok tt))
    × (f'.modified ≡ false)
    × (f'.write_buffer ≡ [])
    × IsValid c'
    × IsForgotten (codes "db") (codes "t") 6 c'
unfolding handle
flush-IsForgotten_example =
    flush-IsForgotten accepting written two 6 (λ f c v. v) two-IsValid refl (λ e. cc) (λ e. cc) refl

invalidate_table-metadata_example :
    (c' : CacheManager) × (invalidate_table (codes "db") (codes "t") two ≡ some c')
    × (lookup (get_cache_key schema_path) c'.cache ≡ lookup (get_cache_key schema_path) two.cache)
invalidate_table-metadata_example =
    invalidate_table-metadata (codes "db") (codes "t") Layout.schema two two-IsValid (λ e. cc)
