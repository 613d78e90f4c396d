-- ===== src/Router/Layout.antt =====
-- The layout of the mounted filesystem (docs/filesystem-structure.md): the nodes, the parts of the
-- path of each, and what `PathRouter::parse` is to say of it.
use sql_fuse.Base.{Lacks, List, Text, [], codes, ◌++◌, ◌∷◌, ◌≡◌, ◌≢◌}
use sql_fuse.Router.Types.{NodeType, FileFormat, ParsedPath, blank, format_to_extension}
use sql_fuse.Router.Names.{detect_format}
use sql_fuse.Router.Split.{IsPart}

pub data Scope : Type 0 where
  global session : Scope

pub data Program : Type 0 where
  procedures functions triggers : Program

pub data TableItem : Type 0 where
  schema indexes stats rows : TableItem

pub data Node : Type 0 where
  root server_info users_dir variables_dir : Node
  user_file : Text → Node
  scope_dir : Scope → Node
  variable_file : Scope → Text → Node
  database_dir database_info tables_dir views_dir : Text → Node
  table_file view_file : Text → Text → FileFormat → Node
  table_dir view_dir : Text → Text → Node
  table_item : Text → Text → TableItem → Node
  table_row_file : Text → Text → Text → FileFormat → Node
  programs_dir : Program → Text → Node
  program_file : Program → Text → Text → Node

abbrev pub scope_name : Scope → Text
scope_name global = codes "global"
scope_name session = codes "session"

abbrev pub scope_type : Scope → NodeType
scope_type global = NodeType.global_variables_dir
scope_type session = NodeType.session_variables_dir

abbrev pub program_name : Program → Text
program_name procedures = codes "procedures"
program_name functions = codes "functions"
program_name triggers = codes "triggers"

abbrev pub program_dir_type : Program → NodeType
program_dir_type procedures = NodeType.procedures_dir
program_dir_type functions = NodeType.functions_dir
program_dir_type triggers = NodeType.triggers_dir

abbrev pub program_file_type : Program → NodeType
program_file_type procedures = NodeType.procedure_file
program_file_type functions = NodeType.function_file
program_file_type triggers = NodeType.trigger_file

abbrev pub item_name : TableItem → Text
item_name schema = codes ".schema"
item_name indexes = codes ".indexes"
item_name stats = codes ".stats"
item_name rows = codes "rows"

abbrev pub item_type : TableItem → NodeType
item_type schema = NodeType.table_schema
item_type indexes = NodeType.table_indexes
item_type stats = NodeType.table_stats
item_type rows = NodeType.table_rows_dir

abbrev pub parts : Node → List Text
parts root = []
parts server_info = codes ".server_info" ∷ []
parts users_dir = codes ".users" ∷ []
parts variables_dir = codes ".variables" ∷ []
parts (user_file name) = codes ".users" ∷ name ∷ []
parts (scope_dir s) = codes ".variables" ∷ scope_name s ∷ []
parts (variable_file s name) = codes ".variables" ∷ scope_name s ∷ name ∷ []
parts (database_dir db) = db ∷ []
parts (database_info db) = db ∷ codes ".info" ∷ []
parts (tables_dir db) = db ∷ codes "tables" ∷ []
parts (views_dir db) = db ∷ codes "views" ∷ []
parts (table_file db t f) = db ∷ codes "tables" ∷ (t ++ format_to_extension f) ∷ []
parts (view_file db v f) = db ∷ codes "views" ∷ (v ++ format_to_extension f) ∷ []
parts (table_dir db t) = db ∷ codes "tables" ∷ t ∷ []
parts (view_dir db v) = db ∷ codes "views" ∷ v ∷ []
parts (table_item db t i) = db ∷ codes "tables" ∷ t ∷ item_name i ∷ []
parts (table_row_file db t id f) =
    db ∷ codes "tables" ∷ t ∷ codes "rows" ∷ (id ++ format_to_extension f) ∷ []
parts (programs_dir k db) = db ∷ program_name k ∷ []
parts (program_file k db name) = db ∷ program_name k ∷ (name ++ codes ".sql") ∷ []

abbrev pub in_database : Text → NodeType → ParsedPath
in_database db ty = record blank { database = db; type = ty }

abbrev pub parsed : Node → ParsedPath
parsed root = record blank { type = NodeType.root }
parsed server_info = record blank { type = NodeType.server_info }
parsed users_dir = record blank { type = NodeType.users_dir }
parsed variables_dir = record blank { type = NodeType.variables_dir }
parsed (user_file name) = record blank { type = NodeType.user_file; object_name = name }
parsed (scope_dir s) = record blank { type = scope_type s }
parsed (variable_file s name) = record blank {
  type = NodeType.variable_file;
  object_name = name;
  extra = scope_name s;
}
parsed (database_dir db) = in_database db NodeType.database
parsed (database_info db) = in_database db NodeType.database_info
parsed (tables_dir db) = in_database db NodeType.tables_dir
parsed (views_dir db) = in_database db NodeType.views_dir
parsed (table_file db t f) = record (in_database db NodeType.table_file) {
  object_name = t;
  format = f;
}
parsed (view_file db v f) = record (in_database db NodeType.view_file) {
  object_name = v;
  format = f;
}
parsed (table_dir db t) = record (in_database db NodeType.table_dir) { object_name = t }
parsed (view_dir db v) = record (in_database db NodeType.view_dir) { object_name = v }
parsed (table_item db t i) = record (in_database db (item_type i)) { object_name = t }
parsed (table_row_file db t id f) = record (in_database db NodeType.table_row_file) {
  object_name = t;
  row_id = id;
  format = f;
}
parsed (programs_dir k db) = in_database db (program_dir_type k)
parsed (program_file k db name) = record (in_database db (program_file_type k)) {
  object_name = name;
  format = FileFormat.sql;
}

-- A name of a database that is not one of the special entries of the root.
abbrev pub IsDatabase : Text → Type 0
IsDatabase db =
    IsPart db × (db ≢ codes ".server_info") × (db ≢ codes ".users") × (db ≢ codes ".variables")

-- A name of a table or a view that has no extension of a format.
abbrev pub IsPlain : Text → Type 0
IsPlain t = IsPart t × (detect_format t ≡ FileFormat.none)

abbrev pub IsFile : Text → FileFormat → Type 0
IsFile t f = Lacks b'/' t × (f ≢ FileFormat.none)

abbrev pub IsNode : Node → Type 0
IsNode root = Unit
IsNode server_info = Unit
IsNode users_dir = Unit
IsNode variables_dir = Unit
IsNode (user_file name) = IsPart name
IsNode (scope_dir s) = Unit
IsNode (variable_file s name) = IsPart name
IsNode (database_dir db) = IsDatabase db
IsNode (database_info db) = IsDatabase db
IsNode (tables_dir db) = IsDatabase db
IsNode (views_dir db) = IsDatabase db
IsNode (table_file db t f) = IsDatabase db × IsFile t f
IsNode (view_file db v f) = IsDatabase db × IsFile v f
IsNode (table_dir db t) = IsDatabase db × IsPlain t
IsNode (view_dir db v) = IsDatabase db × IsPlain v
IsNode (table_item db t i) = IsDatabase db × IsPlain t
IsNode (table_row_file db t id f) = IsDatabase db × IsPlain t × IsFile id f
IsNode (programs_dir k db) = IsDatabase db
IsNode (program_file k db name) = IsDatabase db × Lacks b'/' name
