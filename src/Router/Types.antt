-- ===== src/Router/Types.antt =====
-- include/PathRouter.hpp: the kinds of node, the formats and the parsed path, and the predicates of
-- `ParsedPath` in src/PathRouter.cpp.
use sql_fuse.Base.{Bool, Text, [], codes, false, if◌then◌else◌, text_eq, true}

pub data NodeType : Type 0 where
  root database tables_dir views_dir procedures_dir functions_dir triggers_dir : NodeType
  table_file table_dir table_schema table_indexes table_stats table_rows_dir : NodeType
  table_row_file view_file view_dir procedure_file function_file trigger_file : NodeType
  server_info users_dir user_file variables_dir global_variables_dir : NodeType
  session_variables_dir variable_file database_info not_found : NodeType

pub data FileFormat : Type 0 where
  none csv json sql : FileFormat

pub record ParsedPath : Type 0 where
  pub type : NodeType
  pub database : Text
  pub object_name : Text
  pub format : FileFormat
  pub row_id : Text
  pub extra : Text

-- `ParsedPath result;`
abbrev pub blank : ParsedPath
blank = record {
  type = NodeType.not_found;
  database = [];
  object_name = [];
  format = FileFormat.none;
  row_id = [];
  extra = [];
}

unfoldable pub is_directory_type : NodeType → Bool
is_directory_type root = true
is_directory_type database = true
is_directory_type tables_dir = true
is_directory_type views_dir = true
is_directory_type procedures_dir = true
is_directory_type functions_dir = true
is_directory_type triggers_dir = true
is_directory_type table_dir = true
is_directory_type view_dir = true
is_directory_type table_rows_dir = true
is_directory_type users_dir = true
is_directory_type variables_dir = true
is_directory_type global_variables_dir = true
is_directory_type session_variables_dir = true
is_directory_type _ = false

-- Both lists of the source's `switch` that return `true`, and its default, are the last clause.
unfoldable pub is_read_only_type : NodeType → Bool
is_read_only_type table_file = false
is_read_only_type view_file = false
is_read_only_type table_row_file = false
is_read_only_type _ = true

abbrev pub is_directory : ParsedPath → Bool
is_directory p = is_directory_type p.type

abbrev pub is_read_only : ParsedPath → Bool
is_read_only p = is_read_only_type p.type

unfoldable pub format_to_extension : FileFormat → Text
format_to_extension csv = codes ".csv"
format_to_extension json = codes ".json"
format_to_extension sql = codes ".sql"
format_to_extension _ = []

unfoldable pub extension_to_format : Text → FileFormat
unfolding text_eq
extension_to_format ext =
    if text_eq ext (codes "csv")
    then csv
    else if text_eq ext (codes "json")
    then json
    else if text_eq ext (codes "sql")
    then sql
    else none
