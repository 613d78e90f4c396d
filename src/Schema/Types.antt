-- ===== src/Schema/Types.antt =====
-- The records of include/SchemaManager.hpp, with the defaults that the members have.
use sql_fuse.Base.{Bool, List, Text, [], pos, true, ℕ, ℤ}

pub record ColumnInfo : Type 0 where
  pub name : Text
  pub type : Text
  pub full_type : Text
  pub nullable : Bool
  pub default_value : Text
  pub extra : Text
  pub key : Text
  pub collation : Text
  pub comment : Text
  pub ordinal_position : ℤ

pub record IndexInfo : Type 0 where
  pub name : Text
  pub unique : Bool
  pub primary : Bool
  pub columns : List Text
  pub type : Text
  pub comment : Text
  pub cardinality : ℕ

pub record TableInfo : Type 0 where
  pub name : Text
  pub database : Text
  pub engine : Text
  pub collation : Text
  pub comment : Text
  pub create_time : Text
  pub update_time : Text
  pub rows_estimate : ℕ
  pub data_length : ℕ
  pub index_length : ℕ
  pub auto_increment : ℕ
  pub columns : List ColumnInfo
  pub indexes : List IndexInfo
  pub primary_key_column : Text

pub record ViewInfo : Type 0 where
  pub name : Text
  pub database : Text
  pub definer : Text
  pub security_type : Text
  pub is_updatable : Bool
  pub check_option : Text

pub record RoutineInfo : Type 0 where
  pub name : Text
  pub database : Text
  pub type : Text
  pub definer : Text
  pub returns : Text
  pub data_access : Text
  pub security_type : Text
  pub deterministic : Bool
  pub comment : Text
  pub created : Text
  pub modified : Text

pub record TriggerInfo : Type 0 where
  pub name : Text
  pub database : Text
  pub table : Text
  pub event : Text
  pub timing : Text
  pub statement : Text
  pub definer : Text
  pub created : Text

pub record UserInfo : Type 0 where
  pub user : Text
  pub host : Text
  pub account_locked : Bool
  pub password_expired : Text

pub record ServerInfo : Type 0 where
  pub version : Text
  pub version_comment : Text
  pub uptime : ℕ
  pub threads_connected : ℕ
  pub threads_running : ℕ
  pub questions : ℕ
  pub slow_queries : ℕ
  pub hostname : Text
  pub port : ℕ

abbrev pub new_column : ColumnInfo
new_column = record {
  name = [];
  type = [];
  full_type = [];
  nullable = true;
  default_value = [];
  extra = [];
  key = [];
  collation = [];
  comment = [];
  ordinal_position = pos 0;
}

abbrev pub new_table : TableInfo
new_table = record {
  name = [];
  database = [];
  engine = [];
  collation = [];
  comment = [];
  create_time = [];
  update_time = [];
  rows_estimate = 0;
  data_length = 0;
  index_length = 0;
  auto_increment = 0;
  columns = [];
  indexes = [];
  primary_key_column = [];
}

abbrev pub new_server : ServerInfo
new_server = record {
  version = [];
  version_comment = [];
  uptime = 0;
  threads_connected = 0;
  threads_running = 0;
  questions = 0;
  slow_queries = 0;
  hostname = [];
  port = 0;
}
