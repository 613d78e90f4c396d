-- ===== src/Cache/Types.antt =====
-- The records of include/CacheManager.hpp, and `CacheConfig` of include/Config.hpp.
use sql_fuse.Base.{Bool, List, Text, ℕ}

pub record CacheEntry : Type 0 where
  pub content : Text
  pub created : ℕ
  pub expires : ℕ
  pub size : ℕ
  pub hits : ℕ

pub record Stats : Type 0 where
  pub hits : ℕ
  pub misses : ℕ
  pub current_size : ℕ
  pub max_size : ℕ
  pub entry_count : ℕ
  pub evictions : ℕ

pub record CacheConfig : Type 0 where
  pub max_size_bytes : ℕ
  pub data_ttl : ℕ
  pub schema_ttl : ℕ
  pub metadata_ttl : ℕ
  pub enabled : Bool

pub data Category : Type 0 where
  schema metadata contents : Category

-- An iterator of `m_lruMap` is the node of `m_lruList` that was pushed last for its key, so the
-- map is the list of the keys that have one. The front of `m_lruList` is the head of the list.
pub record CacheManager : Type 0 where
  pub config : CacheConfig
  pub cache : List (Text × CacheEntry)
  pub lru_list : List Text
  pub lru_map : List Text
  pub stats : Stats
