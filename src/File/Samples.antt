-- ===== src/File/Samples.antt =====
-- Generators for the tests: every file has the same text.
use sql_fuse.Base.{arith, codes, refl, ◌≡◌}
use sql_fuse.Router.Types.{NodeType, FileFormat, ParsedPath}
use sql_fuse.Cache.Types.{CacheManager}
use sql_fuse.File.Load.{Generator, Generators, generate, text}
use sql_fuse.File.Loads.{Keeps}

abbrev pub constant : Generator
constant p c = (c, text (codes "abc"))

abbrev pub constants : Generators
constants = record {
  table_csv = constant;
  table_json = constant;
  table_sql = constant;
  table_schema = constant;
  table_indexes = constant;
  table_stats = constant;
  row_json = constant;
  view_content = constant;
  procedure_sql = constant;
  function_sql = constant;
  trigger_sql = constant;
  server_info = constant;
  database_info = constant;
  user_info = constant;
  variable_content = constant;
}

pub constant-Keeps : Keeps constant
constant-Keeps = record { valid = λ p c v. v; config = λ p c. refl }

generate-cache :
    (format : FileFormat) (type : NodeType) (p : ParsedPath) (c : CacheManager)
    → (generate constants format type p c).0 ≡ c
unfolding generate
generate-cache format type p c = ground arith

pub constants-Keeps :
    (format : FileFormat) (type : NodeType) → Keeps (generate constants format type)
constants-Keeps format type = record {
  valid = λ p c v. rw (generate-cache format type p c) v;
  config = λ p c. rw (generate-cache format type p c) refl;
}
