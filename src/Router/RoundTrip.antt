-- ===== src/Router/RoundTrip.antt =====
-- `PathRouter::parse` (src/PathRouter.cpp) against the layout of the filesystem.
use sql_fuse.Base.{
  List, Text, [], arith, codes, refl, text_eq, text_eq-ne, true, ◌++◌, ◌∷◌, ◌≡◌, ◌≢◌,
}
use sql_fuse.Router.Types.{NodeType, FileFormat, ParsedPath, blank, format_to_extension}
use sql_fuse.Router.Names.{
  detect_format, detect_format-format_to_extension, strip_extension-format_to_extension,
}
use sql_fuse.Router.Split.{render, split_path-render}
use sql_fuse.Router.Layout.{
  global, session, Program, procedures, functions, triggers, schema, indexes, stats, rows, Node,
  parts, parsed, IsDatabase, IsNode, program_name, program_file_type, root, server_info, users_dir,
  variables_dir, user_file, scope_dir, variable_file, database_dir, database_info, tables_dir,
  views_dir, table_file, view_file, table_dir, view_dir, table_item, table_row_file, programs_dir,
  program_file,
}
use sql_fuse.Router.{
  is_file_format, parse_row, parse_table_dir, parse_tables, parse_views, parse_database,
  parse_parts, parse,
}
use sql_fuse.Router.Parts.{parts-IsPart}

abbrev at_database : Text → ParsedPath
at_database db = record blank { database = db }

-- A first part that is no special entry of the root is a database.
parse_parts-database :
    (db : Text) (rest : List Text)
    → IsDatabase db
    → parse_parts (db ∷ rest) ≡ parse_database (at_database db) rest
unfolding parse_parts
parse_parts-database db rest (p, a, b, c) =
    rw (text_eq-ne db _ a, text_eq-ne db _ b, text_eq-ne db _ c)

is_file_format-ne : (f : FileFormat) → f ≢ FileFormat.none → is_file_format f ≡ true
unfolding is_file_format
is_file_format-ne FileFormat.none h = absurd (h refl)
is_file_format-ne _ h = refl

parse_tables-file :
    (r : ParsedPath) (t : Text) (f : FileFormat) (rest : List Text)
    → f ≢ FileFormat.none
    → parse_tables r ((t ++ format_to_extension f) ∷ rest)
      ≡ record r { type = NodeType.table_file; object_name = t; format = f }
unfolding parse_tables
parse_tables-file r t f rest h = rw (
  detect_format-format_to_extension t f h,
  strip_extension-format_to_extension t f h,
  is_file_format-ne f h,
)

parse_views-file :
    (r : ParsedPath) (t : Text) (f : FileFormat) (rest : List Text)
    → f ≢ FileFormat.none
    → parse_views r ((t ++ format_to_extension f) ∷ rest)
      ≡ record r { type = NodeType.view_file; object_name = t; format = f }
unfolding parse_views
parse_views-file r t f rest h = rw (
  detect_format-format_to_extension t f h,
  strip_extension-format_to_extension t f h,
  is_file_format-ne f h,
)

parse_tables-plain :
    (r : ParsedPath) (t : Text) (rest : List Text)
    → detect_format t ≡ FileFormat.none
    → parse_tables r (t ∷ rest) ≡ parse_table_dir (record r { object_name = t }) rest
unfolding parse_tables
parse_tables-plain r t rest h = rw h

parse_views-plain :
    (r : ParsedPath) (t : Text) (rest : List Text)
    → detect_format t ≡ FileFormat.none
    → parse_views r (t ∷ rest) ≡ record r { type = NodeType.view_dir; object_name = t }
unfolding parse_views
parse_views-plain r t rest h = rw h

parse_database-tables :
    (r : ParsedPath) (rest : List Text)
    → parse_database r (codes "tables" ∷ rest) ≡ parse_tables r rest
unfolding parse_database text_eq
parse_database-tables r rest = refl

parse_database-views :
    (r : ParsedPath) (rest : List Text)
    → parse_database r (codes "views" ∷ rest) ≡ parse_views r rest
unfolding parse_database text_eq
parse_database-views r rest = refl

parse_row-extension :
    (r : ParsedPath) (id : Text) (f : FileFormat) (rest : List Text)
    → f ≢ FileFormat.none
    → parse_row r ((id ++ format_to_extension f) ∷ rest)
      ≡ record r { type = NodeType.table_row_file; format = f; row_id = id }
unfolding parse_row
parse_row-extension r id f rest h =
    rw (detect_format-format_to_extension id f h, strip_extension-format_to_extension id f h)

parse_table_dir-rows :
    (r : ParsedPath) (id : Text) (f : FileFormat)
    → f ≢ FileFormat.none
    → parse_table_dir r (codes "rows" ∷ (id ++ format_to_extension f) ∷ [])
      ≡ record r { type = NodeType.table_row_file; format = f; row_id = id }
unfolding parse_table_dir text_eq
parse_table_dir-rows r id f h = parse_row-extension r id f [] h

parse_database-program :
    (k : Program) (r : ParsedPath) (name : Text)
    → parse_database r (program_name k ∷ (name ++ codes ".sql") ∷ [])
      ≡ record r { type = program_file_type k; object_name = name; format = FileFormat.sql }
unfolding parse_database text_eq format_to_extension
parse_database-program procedures r name =
    rw (strip_extension-format_to_extension name FileFormat.sql (λ e. ground arith))
parse_database-program functions r name =
    rw (strip_extension-format_to_extension name FileFormat.sql (λ e. ground arith))
parse_database-program triggers r name =
    rw (strip_extension-format_to_extension name FileFormat.sql (λ e. ground arith))

parse_parts-parts : (n : Node) → IsNode n → parse_parts (parts n) ≡ parsed n
parse_parts-parts root h = unfold parse_parts in refl
parse_parts-parts server_info h = unfold parse_parts text_eq in refl
parse_parts-parts users_dir h = unfold parse_parts text_eq in refl
parse_parts-parts variables_dir h = unfold parse_parts text_eq in refl
parse_parts-parts (user_file name) h = unfold parse_parts text_eq in refl
parse_parts-parts (scope_dir global) h = unfold parse_parts text_eq in refl
parse_parts-parts (scope_dir session) h = unfold parse_parts text_eq in refl
parse_parts-parts (variable_file global name) h = unfold parse_parts text_eq in refl
parse_parts-parts (variable_file session name) h = unfold parse_parts text_eq in refl
parse_parts-parts (database_dir db) h =
    rw (parse_parts-database db [] h) (unfold parse_database in refl)
parse_parts-parts (database_info db) h =
    rw (parse_parts-database db _ h) (unfold parse_database text_eq in refl)
parse_parts-parts (tables_dir db) h =
    rw (parse_parts-database db _ h) (unfold parse_database text_eq in refl)
parse_parts-parts (views_dir db) h =
    rw (parse_parts-database db _ h) (unfold parse_database text_eq in refl)
parse_parts-parts (table_file db t f) (d, (l, n)) =
    rw (parse_parts-database db _ d, parse_database-tables, parse_tables-file _ t f [] n)
parse_parts-parts (view_file db v f) (d, (l, n)) =
    rw (parse_parts-database db _ d, parse_database-views, parse_views-file _ v f [] n)
parse_parts-parts (table_dir db t) (d, p) =
    rw (parse_parts-database db _ d, parse_database-tables, parse_tables-plain _ t [] p.1)
      (unfold parse_table_dir in refl)
parse_parts-parts (view_dir db v) (d, p) =
    rw (parse_parts-database db _ d, parse_database-views, parse_views-plain _ v [] p.1)
parse_parts-parts (table_item db t schema) (d, p) =
    rw (parse_parts-database db _ d, parse_database-tables, parse_tables-plain _ t _ p.1)
      (unfold parse_table_dir text_eq in refl)
parse_parts-parts (table_item db t indexes) (d, p) =
    rw (parse_parts-database db _ d, parse_database-tables, parse_tables-plain _ t _ p.1)
      (unfold parse_table_dir text_eq in refl)
parse_parts-parts (table_item db t stats) (d, p) =
    rw (parse_parts-database db _ d, parse_database-tables, parse_tables-plain _ t _ p.1)
      (unfold parse_table_dir text_eq in refl)
parse_parts-parts (table_item db t rows) (d, p) =
    rw (parse_parts-database db _ d, parse_database-tables, parse_tables-plain _ t _ p.1)
      (unfold parse_table_dir text_eq in refl)
parse_parts-parts (table_row_file db t id f) (d, p, (l, n)) =
    rw (parse_parts-database db _ d, parse_database-tables, parse_tables-plain _ t _ p.1)
      (parse_table_dir-rows _ id f n)
parse_parts-parts (programs_dir procedures db) h =
    rw (parse_parts-database db _ h) (unfold parse_database text_eq in refl)
parse_parts-parts (programs_dir functions db) h =
    rw (parse_parts-database db _ h) (unfold parse_database text_eq in refl)
parse_parts-parts (programs_dir triggers db) h =
    rw (parse_parts-database db _ h) (unfold parse_database text_eq in refl)
parse_parts-parts (program_file k db name) (d, l) =
    rw (parse_parts-database db _ d) (parse_database-program k _ name)

-- For every node of the layout whose names are well formed, parsing the path made of its parts
-- gives the fields of that node.
pub parse-render : (n : Node) → IsNode n → parse (render (parts n)) ≡ parsed n
unfolding parse
parse-render n h = rw (split_path-render (parts n) (parts-IsPart n h)) (parse_parts-parts n h)
