-- ===== src/Schema/Mysql/Details.antt =====
-- The descriptions of tables, views, routines and triggers of src/mysql/MySQLSchemaManager.cpp.
use sql_fuse.Base.{
  List, Option, Text, [], codes, if◌then◌else◌, map, none, some, text_eq, ◌++◌, ◌∷◌,
}
use sql_fuse.Csv.Types.{text_lt}
use sql_fuse.Fs.Types.{Query, answer}
use sql_fuse.Schema.Types.{ColumnInfo, IndexInfo, TableInfo, ViewInfo, RoutineInfo, TriggerInfo}
use sql_fuse.Schema.Server.{
  ◌>>=◌, Row, Server, ask, cell, text_or, text_at, is_at, number_at, int_at, each_row, with_first,
}
use sql_fuse.Schema.Mysql.Queries.{
  columns_sql, indexes_sql, table_info_sql, view_info_sql, routine_info_sql, trigger_info_sql,
}

unfoldable pub column_of : Row → Query ColumnInfo
column_of row = do
  position ← int_at row 9
  answer (record {
    name = text_at row 0;
    type = text_at row 1;
    full_type = text_at row 2;
    nullable = is_at (codes "YES") row 3;
    default_value = text_at row 4;
    extra = text_at row 5;
    key = text_at row 6;
    collation = text_at row 7;
    comment = text_at row 8;
    ordinal_position = position;
  })

unfoldable pub get_columns : Server → Text → Text → Query (List ColumnInfo)
unfolding columns_sql column_of
get_columns server database table = do
  rows ← ask server (columns_sql database table)
  each_row column_of rows

unfoldable pub new_index : Text → Row → Query IndexInfo
new_index key_name row = do
  cardinality ← number_at row 6
  answer (record {
    name = key_name;
    unique = is_at (codes "0") row 1;
    primary = text_eq key_name (codes "PRIMARY");
    columns = [];
    type = text_or (codes "BTREE") (cell row 10);
    comment = text_at row 11;
    cardinality = cardinality;
  })

-- `index_map`, a `std::map` whose keys are the names: one that is there gets another column, a new
-- one is put where its name stands in the order.
unfoldable pub with_column : Option Text → IndexInfo → IndexInfo
with_column none idx = idx
with_column (some column) idx = record idx { columns = idx.columns ++ column ∷ [] }

unfoldable pub add_index : Row → List IndexInfo → Query (List IndexInfo)
unfolding new_index with_column text_lt
add_index row [] = do
  idx ← new_index (text_at row 2) row
  answer (with_column (cell row 4) idx ∷ [])
add_index row (idx ∷ map) =
    let later = add_index row map in
    if text_eq idx.name (text_at row 2)
    then answer (with_column (cell row 4) idx ∷ map)
    else if text_lt (text_at row 2) idx.name
    then (do new ← new_index (text_at row 2) row; answer (with_column (cell row 4) new ∷ idx ∷ map))
    else (do rest ← later; answer (idx ∷ rest))

unfoldable pub index_map : List Row → List IndexInfo → Query (List IndexInfo)
unfolding add_index
index_map [] map = answer map
index_map (row ∷ rows) map = do map' ← add_index row map; index_map rows map'

unfoldable pub get_indexes : Server → Text → Text → Query (List IndexInfo)
unfolding indexes_sql index_map
get_indexes server database table = do
  rows ← ask server (indexes_sql database table)
  index_map rows []

-- The name of the first column with this key, or nothing.
abbrev pub primary_column : List ColumnInfo → Text
primary_column [] = []
primary_column (col ∷ columns) =
    if text_eq col.key (codes "PRI") then col.name else primary_column columns

unfoldable pub table_of : Server → Text → Text → Row → Query TableInfo
unfolding get_columns get_indexes
table_of server database table row = do
  rows_estimate ← number_at row 6
  data_length ← number_at row 7
  index_length ← number_at row 8
  auto_increment ← number_at row 9
  columns ← get_columns server database table
  indexes ← get_indexes server database table
  answer (record {
    name = text_at row 0;
    database = database;
    engine = text_at row 1;
    collation = text_at row 2;
    comment = text_at row 3;
    create_time = text_at row 4;
    update_time = text_at row 5;
    rows_estimate = rows_estimate;
    data_length = data_length;
    index_length = index_length;
    auto_increment = auto_increment;
    columns = columns;
    indexes = indexes;
    primary_key_column = primary_column columns;
  })

unfoldable pub get_table_info : Server → Text → Text → Query (Option TableInfo)
unfolding table_info_sql table_of
get_table_info server database table = do
  rows ← ask server (table_info_sql database table)
  with_first (table_of server database table) rows

unfoldable pub get_view_info : Server → Text → Text → Query (Option ViewInfo)
unfolding view_info_sql
get_view_info server database view = do
  rows ← ask server (view_info_sql database view)
  with_first
      (λ row. answer (record {
        name = text_at row 0;
        database = database;
        definer = text_at row 1;
        security_type = text_at row 2;
        is_updatable = is_at (codes "YES") row 3;
        check_option = text_at row 4;
      }))
      rows

unfoldable pub get_routine_info : Server → Text → Text → Text → Query (Option RoutineInfo)
unfolding routine_info_sql
get_routine_info server database name type = do
  rows ← ask server (routine_info_sql database name type)
  with_first
      (λ row. answer (record {
        name = text_at row 0;
        database = database;
        type = text_at row 1;
        definer = text_at row 2;
        returns = text_at row 3;
        data_access = text_at row 4;
        security_type = text_at row 5;
        deterministic = is_at (codes "YES") row 6;
        comment = text_at row 7;
        created = text_at row 8;
        modified = text_at row 9;
      }))
      rows

unfoldable pub get_trigger_info : Server → Text → Text → Query (Option TriggerInfo)
unfolding trigger_info_sql
get_trigger_info server database trigger = do
  rows ← ask server (trigger_info_sql database trigger)
  with_first
      (λ row. answer (record {
        name = text_at row 0;
        database = database;
        table = text_at row 1;
        event = text_at row 2;
        timing = text_at row 3;
        statement = text_at row 4;
        definer = text_at row 5;
        created = text_at row 6;
      }))
      rows
