-- ===== src/Fs/Types.antt =====
-- The state of `SQLFuseFS` (include/SQLFuseFS.hpp), `SecurityConfig` (include/Config.hpp) and the
-- queries of `SchemaManager` (include/SchemaManager.hpp) that the operations make.
use sql_fuse.Base.{Bool, List, Option, Text, false, true, ℕ}
use sql_fuse.Router.Types.{NodeType}
use sql_fuse.Cache.Types.{CacheManager}
use sql_fuse.File.Types.{VirtualFile}

pub record SecurityConfig : Type 0 where
  pub read_only : Bool
  pub allowed_databases : List Text
  pub denied_databases : List Text
  pub expose_system_databases : Bool

-- `m_handles` and `m_nextHandle` of the handle manager.
pub record HandleManager : Type 0 where
  pub handles : List (ℕ × VirtualFile)
  pub next_handle : ℕ

pub record SqlFuseFs : Type 0 where
  pub security : SecurityConfig
  pub rows_per_page : ℕ
  pub cache : CacheManager
  pub files : HandleManager

-- A query that answers or throws.
pub data Query {ℓ} (A : Type ℓ) : Type ℓ where
  answer : A → Query A
  throws : Query A

pub record UserInfo : Type 0 where
  pub user : Text
  pub host : Text

-- The answers of the schema manager at the time of one call. `primary_key` is
-- `getTableInfo(...)->primaryKeyColumn`, `none` where there is no such table.
pub record Schema : Type 0 where
  pub databases : Query (List Text)
  pub database_exists : Text → Query Bool
  pub table_exists : Text → Text → Query Bool
  pub primary_key : Text → Text → Query (Option Text)
  pub tables : Text → Query (List Text)
  pub views : Text → Query (List Text)
  pub procedures : Text → Query (List Text)
  pub functions : Text → Query (List Text)
  pub triggers : Text → Query (List Text)
  pub row_ids : Text → Text → ℕ → Query (List Text)
  pub users : Query (List UserInfo)
  pub global_variables : Query (List (Text × Text))
  pub session_variables : Query (List (Text × Text))

-- The test `parsed.type == NodeType::NotFound`.
abbrev pub is_not_found : NodeType → Bool
is_not_found NodeType.not_found = true
is_not_found _ = false
