-- ===== src/Router.antt =====
-- src/PathRouter.cpp and include/PathRouter.hpp: a path of the mounted filesystem to the database
-- object that it names.
pub mod Types
pub mod Names
pub mod Split
pub mod Layout
pub mod Parts
pub mod RoundTrip
pub mod Shape
pub mod Samples
mod Tests
use sql_fuse.Base.{Bool, List, Text, [], codes, false, if◌then◌else◌, text_eq, true, ◌∷◌}
use sql_fuse.Router.Types.{NodeType, FileFormat, ParsedPath, blank}
use sql_fuse.Router.Names.{detect_format, strip_extension}
use sql_fuse.Router.Split.{split_path}

-- The files in a directory of one kind of stored program: every name is taken for a `.sql` file.
parse_programs : NodeType → NodeType → ParsedPath → List Text → ParsedPath
parse_programs dir file result [] = record result { type = dir }
parse_programs dir file result (name ∷ _) = record result {
  type = file;
  object_name = strip_extension name;
  format = FileFormat.sql;
}

parse_row : ParsedPath → List Text → ParsedPath
parse_row result [] = record result { type = NodeType.table_rows_dir }
parse_row result (row_file ∷ _) = record result {
  type = NodeType.table_row_file;
  format = detect_format row_file;
  row_id = strip_extension row_file;
}

-- What stands in the directory of one table.
parse_table_dir : ParsedPath → List Text → ParsedPath
unfolding parse_row
parse_table_dir result [] = record result { type = NodeType.table_dir }
parse_table_dir result (sub ∷ rest) =
    if text_eq sub (codes ".schema")
    then record result { type = NodeType.table_schema }
    else if text_eq sub (codes ".indexes")
    then record result { type = NodeType.table_indexes }
    else if text_eq sub (codes ".stats")
    then record result { type = NodeType.table_stats }
    else if text_eq sub (codes "rows")
    then parse_row result rest
    else record result { type = NodeType.not_found }

is_file_format : FileFormat → Bool
is_file_format FileFormat.none = false
is_file_format _ = true

parse_tables : ParsedPath → List Text → ParsedPath
unfolding is_file_format parse_table_dir
parse_tables result [] = record result { type = NodeType.tables_dir }
parse_tables result (table_part ∷ rest) =
    if is_file_format (detect_format table_part)
    then record result {
      type = NodeType.table_file;
      object_name = strip_extension table_part;
      format = detect_format table_part;
    }
    else parse_table_dir (record result { object_name = table_part }) rest

parse_views : ParsedPath → List Text → ParsedPath
unfolding is_file_format
parse_views result [] = record result { type = NodeType.views_dir }
parse_views result (view_part ∷ _) =
    if is_file_format (detect_format view_part)
    then record result {
      type = NodeType.view_file;
      object_name = strip_extension view_part;
      format = detect_format view_part;
    }
    else record result { type = NodeType.view_dir; object_name = view_part }

parse_database : ParsedPath → List Text → ParsedPath
unfolding parse_tables parse_views parse_programs
parse_database result [] = record result { type = NodeType.database }
parse_database result (object_type ∷ rest) =
    if text_eq object_type (codes ".info")
    then record result { type = NodeType.database_info }
    else if text_eq object_type (codes "tables")
    then parse_tables result rest
    else if text_eq object_type (codes "views")
    then parse_views result rest
    else if text_eq object_type (codes "procedures")
    then parse_programs NodeType.procedures_dir NodeType.procedure_file result rest
    else if text_eq object_type (codes "functions")
    then parse_programs NodeType.functions_dir NodeType.function_file result rest
    else if text_eq object_type (codes "triggers")
    then parse_programs NodeType.triggers_dir NodeType.trigger_file result rest
    else record result { type = NodeType.not_found }

parse_users : List Text → ParsedPath
parse_users [] = record blank { type = NodeType.users_dir }
parse_users (name ∷ _) = record blank { type = NodeType.user_file; object_name = name }

parse_scope : NodeType → Text → List Text → ParsedPath
parse_scope dir scope [] = record blank { type = dir }
parse_scope dir scope (name ∷ _) = record blank {
  type = NodeType.variable_file;
  object_name = name;
  extra = scope;
}

parse_variables : List Text → ParsedPath
unfolding parse_scope
parse_variables [] = record blank { type = NodeType.variables_dir }
parse_variables (scope ∷ rest) =
    if text_eq scope (codes "global")
    then parse_scope NodeType.global_variables_dir (codes "global") rest
    else if text_eq scope (codes "session")
    then parse_scope NodeType.session_variables_dir (codes "session") rest
    else blank

unfoldable pub parse_parts : List Text → ParsedPath
unfolding parse_users parse_variables parse_database
parse_parts [] = record blank { type = NodeType.root }
parse_parts (first ∷ rest) =
    if text_eq first (codes ".server_info")
    then record blank { type = NodeType.server_info }
    else if text_eq first (codes ".users")
    then parse_users rest
    else if text_eq first (codes ".variables")
    then parse_variables rest
    else parse_database (record blank { database = first }) rest

unfoldable pub parse : Text → ParsedPath
parse path = parse_parts (split_path path)
