-- ===== src/Schema/Oracle/Details.antt =====
-- The descriptions of src/oracle/OracleSchemaManager.cpp.
use sql_fuse.Base.{
  Bool, List, Option, Text, [], codes, false, if◌then◌else◌, is_empty, is_positive, is_zero, leb,
  negsuc, pos, suc, text_eq, to_string, true, ℕ, ℤ, ◌++◌, ◌||◌, ◌∷◌,
}
use sql_fuse.Fs.Types.{Query, answer}
use sql_fuse.Schema.Types.{
  ColumnInfo, IndexInfo, TableInfo, ViewInfo, RoutineInfo, TriggerInfo, new_column, new_table,
}
use sql_fuse.Schema.Server.{
  ◌>>=◌, Row, Server, text_at, is_at, number_at, int_at, each_row, with_first, rows_or_none,
  has_part,
}
use sql_fuse.Schema.Oracle.Queries.{
  columns_sql, indexes_sql, table_info_sql, table_info_key_sql, view_info_sql, routine_info_sql,
  trigger_info_sql,
}
use sql_fuse.Schema.Oracle.Lists.{execute}

-- `std::to_string` of an `int`.
abbrev pub int_text : ℤ → Text
int_text (pos n) = to_string n
int_text (negsuc n) = codes "-" ++ to_string (suc n)

-- `precision <= 10` on an `int`.
abbrev pub at_most : ℕ → ℤ → Bool
at_most bound (pos n) = leb n bound
at_most bound (negsuc n) = true

unfoldable pub map_oracle_type : Text → ℤ → ℤ → Text
map_oracle_type oracle_type precision scale =
    if text_eq oracle_type (codes "NUMBER")
    then (if is_zero scale
        then (if at_most 10 precision then codes "INTEGER" else codes "BIGINT")
        else codes "DECIMAL("
          ++ (int_text precision ++ (codes "," ++ (int_text scale ++ codes ")"))))
    else if text_eq oracle_type (codes "VARCHAR2") || text_eq oracle_type (codes "NVARCHAR2")
    then codes "VARCHAR"
    else if text_eq oracle_type (codes "CHAR") || text_eq oracle_type (codes "NCHAR")
    then codes "CHAR"
    else if text_eq oracle_type (codes "DATE")
    then codes "DATE"
    else if has_part (codes "TIMESTAMP") oracle_type
    then codes "TIMESTAMP"
    else if text_eq oracle_type (codes "CLOB") || text_eq oracle_type (codes "NCLOB")
    then codes "TEXT"
    else if text_eq oracle_type (codes "BLOB")
    then codes "BLOB"
    else if text_eq oracle_type (codes "RAW")
    then codes "BINARY"
    else if text_eq oracle_type (codes "FLOAT") || text_eq oracle_type (codes "BINARY_FLOAT")
    then codes "FLOAT"
    else if text_eq oracle_type (codes "BINARY_DOUBLE")
    then codes "DOUBLE"
    else oracle_type

unfoldable pub full_type : Text → ℤ → ℤ → Text
full_type oracle_type precision scale =
    if is_positive precision
    then oracle_type
      ++ (codes "("
          ++ (int_text precision
              ++ ((if is_positive scale then codes "," ++ int_text scale else []) ++ codes ")")))
    else oracle_type

unfoldable pub column_of : Row → Query ColumnInfo
unfolding map_oracle_type full_type
column_of row = do
  precision ← int_at row 3
  scale ← int_at row 4
  position ← int_at row 6
  answer (record new_column {
    name = text_at row 0;
    type = map_oracle_type (text_at row 1) precision scale;
    full_type = full_type (text_at row 1) precision scale;
    nullable = is_at (codes "Y") row 5;
    ordinal_position = position;
    default_value = text_at row 7;
  })

unfoldable pub get_columns : Option Server → Text → Text → Query (List ColumnInfo)
unfolding columns_sql column_of
get_columns conn database table =
    each_row column_of (rows_or_none (execute conn (columns_sql database table)))

abbrev pub new_index : Row → IndexInfo
new_index row = record {
  name = text_at row 0;
  unique = text_eq (text_at row 1) (codes "UNIQUE");
  primary = false;
  columns = text_at row 2 ∷ [];
  type = [];
  comment = [];
  cardinality = 0;
}

abbrev pub with_row : IndexInfo → Row → IndexInfo
with_row idx row = record idx { columns = idx.columns ++ text_at row 2 ∷ [] }

-- The loop, from an index on: its rows follow each other, and a row with another name starts the next.
unfoldable pub index_loop : IndexInfo → List Row → List IndexInfo
index_loop idx [] = idx ∷ []
index_loop idx (row ∷ rows) =
    let same = index_loop (with_row idx row) rows in
    let other = index_loop (new_index row) rows in
    if text_eq (text_at row 0) idx.name then same else idx ∷ other

-- Before the first index `currentIndex` is empty: rows without a name are passed over.
unfoldable pub indexes_of : List Row → List IndexInfo
unfolding index_loop
indexes_of [] = []
indexes_of (row ∷ rows) =
    let rest = indexes_of rows in
    if is_empty (text_at row 0) then rest else index_loop (new_index row) rows

unfoldable pub get_indexes : Option Server → Text → Text → List IndexInfo
unfolding indexes_sql indexes_of
get_indexes conn database table =
    indexes_of (rows_or_none (execute conn (indexes_sql database table)))

abbrev pub first_text : List Row → Text
first_text [] = []
first_text (row ∷ rows) = text_at row 0

unfoldable pub get_table_info : Option Server → Text → Text → Query (Option TableInfo)
unfolding table_info_sql table_info_key_sql
get_table_info conn database table =
    with_first
      (λ row. do
        rows_estimate ← number_at row 1
        answer (record new_table {
          name = table;
          database = database;
          rows_estimate = rows_estimate;
          primary_key_column =
              first_text (rows_or_none (execute conn (table_info_key_sql database table)));
        }))
      (rows_or_none (execute conn (table_info_sql database table)))

unfoldable pub get_view_info : Option Server → Text → Text → Query (Option ViewInfo)
unfolding view_info_sql
get_view_info conn database view =
    with_first
      (λ row. answer (record {
        name = text_at row 0;
        database = database;
        definer = [];
        security_type = [];
        is_updatable = false;
        check_option = [];
      }))
      (rows_or_none (execute conn (view_info_sql database view)))

unfoldable pub get_routine_info : Option Server → Text → Text → Text → Query (Option RoutineInfo)
unfolding routine_info_sql
get_routine_info conn database name type =
    with_first
      (λ row. answer (record {
        name = text_at row 0;
        database = database;
        type = text_at row 1;
        definer = [];
        returns = [];
        data_access = [];
        security_type = [];
        deterministic = false;
        comment = [];
        created = [];
        modified = [];
      }))
      (rows_or_none (execute conn (routine_info_sql database name type)))

unfoldable pub get_trigger_info : Option Server → Text → Text → Query (Option TriggerInfo)
unfolding trigger_info_sql
get_trigger_info conn database trigger =
    with_first
      (λ row. answer (record {
        name = text_at row 0;
        database = database;
        table = text_at row 3;
        event = text_at row 2;
        timing = text_at row 1;
        statement = text_at row 5;
        definer = [];
        created = [];
      }))
      (rows_or_none (execute conn (trigger_info_sql database trigger)))
