-- ===== src/Schema/Sqlite/Queries.antt =====
-- The statements of src/sqlite/SQLiteSchemaManager.cpp.
use sql_fuse.Base.{Text, codes, to_string, ℕ, ◌++◌}
use sql_fuse.Sql.Escapes.{each_char, double, quoted}

unfoldable pub escape_identifier : Text → Text
unfolding quoted
escape_identifier id = quoted b'"' id

unfoldable pub escape_string : Text → Text
unfolding each_char
escape_string str = each_char (double b'\'') str

abbrev pub databases_sql : Text
databases_sql = codes "PRAGMA database_list"

unfoldable pub tables_sql : Text → Text
tables_sql database =
    codes "SELECT name FROM "
    ++ (escape_identifier database
        ++ (codes ".sqlite_master WHERE type='table' AND name NOT LIKE 'sqlite_%' ORDER BY "
            ++ (codes "name")))

unfoldable pub columns_sql : Text → Text → Text
columns_sql database table =
    codes "PRAGMA "
    ++ (escape_identifier database
        ++ (codes ".table_info(" ++ (escape_identifier table ++ (codes ")"))))

unfoldable pub indexes_sql : Text → Text → Text
indexes_sql database table =
    codes "PRAGMA "
    ++ (escape_identifier database
        ++ (codes ".index_list(" ++ (escape_identifier table ++ (codes ")"))))

unfoldable pub indexes_columns_sql : Text → Text → Text
indexes_columns_sql database index =
    codes "PRAGMA "
    ++ (escape_identifier database
        ++ (codes ".index_info(" ++ (escape_identifier index ++ (codes ")"))))

unfoldable pub primary_key_column_sql : Text → Text
primary_key_column_sql table =
    codes "PRAGMA table_info(" ++ (escape_identifier table ++ (codes ")"))

unfoldable pub table_info_sql : Text → Text → Text
table_info_sql database table =
    codes "SELECT COUNT(*) FROM "
    ++ (escape_identifier database ++ (codes "." ++ (escape_identifier table)))

unfoldable pub views_sql : Text → Text
views_sql database =
    codes "SELECT name FROM "
    ++ (escape_identifier database ++ (codes ".sqlite_master WHERE type='view' ORDER BY name"))

unfoldable pub view_info_sql : Text → Text → Text
view_info_sql database view =
    codes "SELECT name, sql FROM "
    ++ (escape_identifier database
        ++ (codes ".sqlite_master WHERE type='view' AND name='"
            ++ (escape_string view ++ (codes "'"))))

unfoldable pub triggers_sql : Text → Text
triggers_sql database =
    codes "SELECT name FROM "
    ++ (escape_identifier database ++ (codes ".sqlite_master WHERE type='trigger' ORDER BY name"))

unfoldable pub trigger_info_sql : Text → Text → Text
trigger_info_sql database trigger =
    codes "SELECT name, tbl_name, sql FROM "
    ++ (escape_identifier database
        ++ (codes ".sqlite_master WHERE type='trigger' AND name='"
            ++ (escape_string trigger ++ (codes "'"))))

unfoldable pub create_statement_sql : Text → Text → Text → Text
create_statement_sql database kind object =
    codes "SELECT sql FROM "
    ++ (escape_identifier database
        ++ (codes ".sqlite_master WHERE type='"
            ++ (kind ++ (codes "' AND name='" ++ (escape_string object ++ (codes "'"))))))

abbrev pub global_variables_sql : Text
global_variables_sql = codes "PRAGMA compile_options"

unfoldable pub global_variables_pragma_sql : Text → Text
global_variables_pragma_sql pragma = codes "PRAGMA " ++ pragma

unfoldable pub row_ids_sql : Text → Text → Text → ℕ → ℕ → Text
row_ids_sql database table column limit offset =
    codes "SELECT "
    ++ (escape_identifier column
        ++ (codes " FROM "
            ++ (escape_identifier database
                ++ (codes "."
                    ++ (escape_identifier table
                        ++ (codes " ORDER BY "
                            ++ (escape_identifier column
                                ++ (codes " LIMIT "
                                    ++ (to_string limit
                                        ++ (codes " OFFSET " ++ (to_string offset)))))))))))

unfoldable pub row_count_sql : Text → Text → Text
row_count_sql database table =
    codes "SELECT COUNT(*) FROM "
    ++ (escape_identifier database ++ (codes "." ++ (escape_identifier table)))
