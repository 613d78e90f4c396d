-- ===== src/Schema/Postgresql/Details.antt =====
-- The descriptions of src/postgresql/PostgreSQLSchemaManager.cpp.
use sql_fuse.Base.{
  List, Option, Text, [], codes, if◌then◌else◌, is_empty, map, none, some, ◌++◌, ◌==◌, ◌∷◌,
}
use sql_fuse.Fs.Types.{Query, answer}
use sql_fuse.Schema.Types.{
  ColumnInfo, IndexInfo, TableInfo, ViewInfo, RoutineInfo, TriggerInfo, new_column, new_table,
}
use sql_fuse.Schema.Server.{
  ◌>>=◌, Row, Server, cell, text_or, text_at, is_at, number_at, int_at, each_row, with_first,
  rows_or_none,
}
use sql_fuse.Schema.Postgresql.Queries.{
  columns_sql, indexes_sql, primary_key_column_sql, table_info_sql, view_info_sql, routine_info_sql,
  trigger_info_sql,
}

-- The type with its length, or with its precision and scale.
unfoldable pub full_type : Row → Text
full_type row = elim (cell row 5) [
  | some size ↦ text_at row 1 ++ (codes "(" ++ (size ++ codes ")"))
  | none ↦ elim (cell row 6) [
    | some precision ↦
        text_at row 1
        ++ (codes "("
            ++ (precision
                ++ (elim (cell row 7) [ none ↦ [] | some scale ↦ codes "," ++ scale ]
                    ++ codes ")")))
    | none ↦ text_or (text_at row 1) (cell row 2)
  ]
]

unfoldable pub column_of : Row → Query ColumnInfo
unfolding full_type
column_of row = do
  position ← int_at row 8
  answer (record new_column {
    name = text_at row 0;
    type = text_at row 1;
    full_type = full_type row;
    nullable = is_at (codes "YES") row 3;
    default_value = text_at row 4;
    key = text_at row 9;
    ordinal_position = position;
  })

unfoldable pub get_columns : Server → Text → Text → Query (List ColumnInfo)
unfolding columns_sql column_of
get_columns server database table = each_row column_of (rows_or_none (server (columns_sql table)))

-- The loop of `std::getline` to the commas: an empty text has no part, and one that ends with a comma
-- none after it.
unfoldable pub comma_parts : Text → Text → List Text
comma_parts part [] = if is_empty part then [] else part ∷ []
comma_parts part (c ∷ s) =
    let next = comma_parts [] s in
    let more = comma_parts (part ++ c ∷ []) s in if c == b',' then part ∷ next else more

unfoldable pub index_of : Row → IndexInfo
unfolding comma_parts
index_of row = record {
  name = text_at row 0;
  unique = is_at (codes "t") row 1;
  primary = is_at (codes "t") row 2;
  columns = elim (cell row 4) [ none ↦ [] | some columns ↦ comma_parts [] columns ];
  type = text_or (codes "btree") (cell row 3);
  comment = [];
  cardinality = 0;
}

unfoldable pub get_indexes : Server → Text → Text → List IndexInfo
unfolding indexes_sql index_of
get_indexes server database table = map index_of (rows_or_none (server (indexes_sql table)))

abbrev pub first_text : List Row → Text
first_text [] = []
first_text (row ∷ rows) = text_at row 0

unfoldable pub get_primary_key_column : Server → Text → Text → Text
unfolding primary_key_column_sql
get_primary_key_column server database table =
    first_text (rows_or_none (server (primary_key_column_sql table)))

unfoldable pub table_of : Server → Text → Text → Row → Query TableInfo
unfolding get_columns get_indexes get_primary_key_column
table_of server database table row = do
  data_length ← number_at row 2
  rows_estimate ← number_at row 3
  columns ← get_columns server database table
  answer (record new_table {
    database = database;
    name = text_at row 0;
    engine = codes "PostgreSQL";
    data_length = data_length;
    rows_estimate = rows_estimate;
    columns = columns;
    indexes = get_indexes server database table;
    primary_key_column = get_primary_key_column server database table;
  })

unfoldable pub get_table_info : Server → Text → Text → Query (Option TableInfo)
unfolding table_info_sql table_of
get_table_info server database table =
    with_first (table_of server database table) (rows_or_none (server (table_info_sql table)))

unfoldable pub get_view_info : Server → Text → Text → Query (Option ViewInfo)
unfolding view_info_sql
get_view_info server database view =
    with_first
      (λ row. answer (record {
        name = text_at row 0;
        database = database;
        definer = [];
        security_type = [];
        is_updatable = is_at (codes "YES") row 2;
        check_option = text_at row 3;
      }))
      (rows_or_none (server (view_info_sql view)))

unfoldable pub get_routine_info : Server → Text → Text → Text → Query (Option RoutineInfo)
unfolding routine_info_sql
get_routine_info server database name type =
    with_first
      (λ row. answer (record {
        name = text_at row 0;
        database = database;
        type = text_at row 1;
        definer = [];
        returns = text_at row 2;
        data_access = [];
        security_type = text_at row 3;
        deterministic = is_at (codes "YES") row 4;
        comment = text_at row 5;
        created = [];
        modified = [];
      }))
      (rows_or_none (server (routine_info_sql name type)))

unfoldable pub get_trigger_info : Server → Text → Text → Query (Option TriggerInfo)
unfolding trigger_info_sql
get_trigger_info server database trigger =
    with_first
      (λ row. answer (record {
        name = text_at row 0;
        database = database;
        table = text_at row 1;
        event = text_at row 2;
        timing = text_at row 3;
        statement = text_at row 4;
        definer = [];
        created = [];
      }))
      (rows_or_none (server (trigger_info_sql trigger)))
