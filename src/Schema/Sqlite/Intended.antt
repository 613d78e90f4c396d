-- ===== src/Schema/Sqlite/Intended.antt =====
-- What the statements of src/sqlite/SQLiteSchemaManager.cpp are meant to be.
use sql_fuse.Base.{List, [], codes, some, to_string, ◌∷◌}
use sql_fuse.Sql.Pieces.{Piece, word, identifier, value}
use sql_fuse.Schema.Sqlite.Statements.{
  Statement, for_databases, for_tables, for_columns, for_indexes, for_indexes_columns,
  for_primary_key_column, for_table_info, for_views, for_view_info, for_triggers, for_trigger_info,
  for_create_statement_table, for_create_statement_view, for_create_statement_trigger,
  for_create_statement_index, for_global_variables, for_row_ids, for_row_count,
}

-- The words, the names and the values that each statement is meant to be.
abbrev pub pieces_of : Statement → List Piece
pieces_of for_databases = word (codes "PRAGMA database_list") ∷ []
pieces_of (for_tables database) =
    word (codes "SELECT name FROM ")
    ∷ identifier database
    ∷ word (codes ".sqlite_master WHERE type=")
    ∷ value (some (codes "table"))
    ∷ word (codes " AND name NOT LIKE ")
    ∷ value (some (codes "sqlite_%"))
    ∷ word (codes " ORDER BY name")
    ∷ []
pieces_of (for_columns database table) =
    word (codes "PRAGMA ")
    ∷ identifier database
    ∷ word (codes ".table_info(")
    ∷ identifier table
    ∷ word (codes ")")
    ∷ []
pieces_of (for_indexes database table) =
    word (codes "PRAGMA ")
    ∷ identifier database
    ∷ word (codes ".index_list(")
    ∷ identifier table
    ∷ word (codes ")")
    ∷ []
pieces_of (for_indexes_columns database index) =
    word (codes "PRAGMA ")
    ∷ identifier database
    ∷ word (codes ".index_info(")
    ∷ identifier index
    ∷ word (codes ")")
    ∷ []
pieces_of (for_primary_key_column table) =
    word (codes "PRAGMA table_info(") ∷ identifier table ∷ word (codes ")") ∷ []
pieces_of (for_table_info database table) =
    word (codes "SELECT COUNT(*) FROM ")
    ∷ identifier database
    ∷ word (codes ".")
    ∷ identifier table
    ∷ []
pieces_of (for_views database) =
    word (codes "SELECT name FROM ")
    ∷ identifier database
    ∷ word (codes ".sqlite_master WHERE type=")
    ∷ value (some (codes "view"))
    ∷ word (codes " ORDER BY name")
    ∷ []
pieces_of (for_view_info database view) =
    word (codes "SELECT name, sql FROM ")
    ∷ identifier database
    ∷ word (codes ".sqlite_master WHERE type=")
    ∷ value (some (codes "view"))
    ∷ word (codes " AND name=")
    ∷ value (some view)
    ∷ []
pieces_of (for_triggers database) =
    word (codes "SELECT name FROM ")
    ∷ identifier database
    ∷ word (codes ".sqlite_master WHERE type=")
    ∷ value (some (codes "trigger"))
    ∷ word (codes " ORDER BY name")
    ∷ []
pieces_of (for_trigger_info database trigger) =
    word (codes "SELECT name, tbl_name, sql FROM ")
    ∷ identifier database
    ∷ word (codes ".sqlite_master WHERE type=")
    ∷ value (some (codes "trigger"))
    ∷ word (codes " AND name=")
    ∷ value (some trigger)
    ∷ []
pieces_of (for_create_statement_table database object) =
    word (codes "SELECT sql FROM ")
    ∷ identifier database
    ∷ word (codes ".sqlite_master WHERE type=")
    ∷ value (some (codes "table"))
    ∷ word (codes " AND name=")
    ∷ value (some object)
    ∷ []
pieces_of (for_create_statement_view database object) =
    word (codes "SELECT sql FROM ")
    ∷ identifier database
    ∷ word (codes ".sqlite_master WHERE type=")
    ∷ value (some (codes "view"))
    ∷ word (codes " AND name=")
    ∷ value (some object)
    ∷ []
pieces_of (for_create_statement_trigger database object) =
    word (codes "SELECT sql FROM ")
    ∷ identifier database
    ∷ word (codes ".sqlite_master WHERE type=")
    ∷ value (some (codes "trigger"))
    ∷ word (codes " AND name=")
    ∷ value (some object)
    ∷ []
pieces_of (for_create_statement_index database object) =
    word (codes "SELECT sql FROM ")
    ∷ identifier database
    ∷ word (codes ".sqlite_master WHERE type=")
    ∷ value (some (codes "index"))
    ∷ word (codes " AND name=")
    ∷ value (some object)
    ∷ []
pieces_of for_global_variables = word (codes "PRAGMA compile_options") ∷ []
pieces_of (for_row_ids database table column limit offset) =
    word (codes "SELECT ")
    ∷ identifier column
    ∷ word (codes " FROM ")
    ∷ identifier database
    ∷ word (codes ".")
    ∷ identifier table
    ∷ word (codes " ORDER BY ")
    ∷ identifier column
    ∷ word (codes " LIMIT ")
    ∷ word (to_string limit)
    ∷ word (codes " OFFSET ")
    ∷ word (to_string offset)
    ∷ []
pieces_of (for_row_count database table) =
    word (codes "SELECT COUNT(*) FROM ")
    ∷ identifier database
    ∷ word (codes ".")
    ∷ identifier table
    ∷ []
