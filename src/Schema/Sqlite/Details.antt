-- ===== src/Schema/Sqlite/Details.antt =====
-- The descriptions of src/sqlite/SQLiteSchemaManager.cpp.
use sql_fuse.Base.{
  Bool, List, Option, Text, [], add_one, codes, false, if◌then◌else◌, is_positive, is_zero, leb,
  map, none, not, some, to_int, to_unsigned, ℕ, ◌&&◌, ◌-◌, ◌∷◌,
}
use sql_fuse.Cache.Types.{CacheManager}
use sql_fuse.Fs.Types.{Query, answer, throws}
use sql_fuse.Schema.Types.{
  ColumnInfo, IndexInfo, TableInfo, ViewInfo, RoutineInfo, TriggerInfo, new_column, new_table,
}
use sql_fuse.Schema.Server.{has_part}
use sql_fuse.Schema.Sqlite.Queries.{
  columns_sql, indexes_sql, indexes_columns_sql, primary_key_column_sql, table_info_sql,
  view_info_sql, trigger_info_sql,
}
use sql_fuse.Schema.Sqlite.Lists.{Row, Server, cell, string_at, strings_at, execute, table_exists}

abbrev pub column_of : Row → ColumnInfo
column_of row = record new_column {
  ordinal_position = add_one (to_int (cell row 0).number);
  name = string_at row 1;
  type = string_at row 2;
  full_type = string_at row 2;
  nullable = is_zero (cell row 3).number;
  default_value = string_at row 4;
  key = if is_positive (cell row 5).number then codes "PRI" else [];
}

unfoldable pub get_columns : Option Server → Text → Text → List ColumnInfo
unfolding columns_sql
get_columns conn database table = map column_of (execute conn (columns_sql database table))

unfoldable pub index_of : Option Server → Text → Row → IndexInfo
unfolding indexes_columns_sql has_part
index_of conn database row = record {
  name = string_at row 1;
  unique = not (is_zero (cell row 2).number);
  primary =
      has_part (codes "autoindex") (string_at row 1)
      && has_part (codes "PRIMARY") (string_at row 1);
  columns = strings_at 2 (execute conn (indexes_columns_sql database (string_at row 1)));
  type = string_at row 3;
  comment = [];
  cardinality = 0;
}

unfoldable pub get_indexes : Option Server → Text → Text → List IndexInfo
unfolding indexes_sql index_of
get_indexes conn database table =
    map (index_of conn database) (execute conn (indexes_sql database table))

-- The name of the first column of the primary key, or `rowid`.
abbrev pub key_column : List Row → Text
key_column [] = codes "rowid"
key_column (row ∷ rows) =
    if is_positive (cell row 5).number then string_at row 1 else key_column rows

unfoldable pub get_primary_key_column : Option Server → Text → Text
unfolding primary_key_column_sql
get_primary_key_column none table = []
get_primary_key_column (some conn) table =
    key_column (execute (some conn) (primary_key_column_sql table))

-- The number in the first column of the first row, as an unsigned one, or nought.
abbrev pub first_count : List Row → ℕ
first_count [] = 0
first_count (row ∷ rows) = to_unsigned 64 (cell row 0).number

unfoldable pub table_of : Option Server → Text → Text → TableInfo
unfolding get_columns get_indexes get_primary_key_column table_info_sql
table_of conn database table = record new_table {
  database = database;
  name = table;
  engine = codes "SQLite";
  columns = get_columns conn database table;
  indexes = get_indexes conn database table;
  primary_key_column = get_primary_key_column conn table;
  rows_estimate = first_count (execute conn (table_info_sql database table));
}

-- What is described, if the table is in the list.
abbrev pub if_listed :
    TableInfo
    → Option (CacheManager × Query Bool)
    → Option (CacheManager × Query (Option TableInfo))
if_listed info none = none
if_listed info (some (c, throws)) = some (c, throws)
if_listed info (some (c, answer there)) = some (c, answer (if there then some info else none))

unfoldable pub get_table_info :
    Option Server
    → Text
    → Text
    → ℕ
    → ℕ
    → CacheManager
    → Option (CacheManager × Query (Option TableInfo))
unfolding table_exists table_of
get_table_info conn database table now later c =
    if_listed (table_of conn database table) (table_exists conn database table now later c)

unfoldable pub get_view_info : Option Server → Text → Text → Option ViewInfo
unfolding view_info_sql
get_view_info conn database view = elim (execute conn (view_info_sql database view)) [
  | [] ↦ none
  | row ∷ rows ↦ some (record {
    name = string_at row 0;
    database = database;
    definer = [];
    security_type = [];
    is_updatable = false;
    check_option = [];
  })
]

unfoldable pub get_routine_info : Text → Text → Text → Option RoutineInfo
get_routine_info database name type = none

-- `toupper` of each byte, in the locale that a program starts in.
abbrev pub to_upper : Text → Text
to_upper s = map (λ c. if leb b'a' c && leb c b'z' then c - 32 else c) s

-- The first of the words that is in the text.
abbrev pub first_part : List Text → Text → Text
first_part [] sql = []
first_part (part ∷ parts) sql = if has_part part sql then part else first_part parts sql

unfoldable pub trigger_timing : Text → Text
unfolding has_part
trigger_timing statement =
    first_part (codes "BEFORE" ∷ codes "AFTER" ∷ codes "INSTEAD OF" ∷ []) (to_upper statement)

unfoldable pub trigger_event : Text → Text
unfolding has_part
trigger_event statement =
    first_part (codes "INSERT" ∷ codes "UPDATE" ∷ codes "DELETE" ∷ []) (to_upper statement)

unfoldable pub get_trigger_info : Option Server → Text → Text → Option TriggerInfo
unfolding trigger_info_sql trigger_timing trigger_event
get_trigger_info conn database trigger = elim (execute conn (trigger_info_sql database trigger)) [
  | [] ↦ none
  | row ∷ rows ↦ some (record {
    name = string_at row 0;
    database = database;
    table = string_at row 1;
    event = trigger_event (string_at row 2);
    timing = trigger_timing (string_at row 2);
    statement = string_at row 2;
    definer = [];
    created = [];
  })
]
