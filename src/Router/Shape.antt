-- ===== src/Router/Shape.antt =====
-- What `PathRouter::parse` (src/PathRouter.cpp) can return, for every path.
use sql_fuse.Base.{Bool-cases, List, Text, [], codes, inl, inr, refl, text_eq, ◌∷◌, ◌≡◌, ◌⊎◌}
use sql_fuse.Router.Types.{NodeType, ParsedPath, blank}
use sql_fuse.Router.Names.{detect_format, strip_extension}
use sql_fuse.Router.Split.{split_path}
use sql_fuse.Router.Layout
use sql_fuse.Router.Layout.{Node, parsed}
use sql_fuse.Router.{
  is_file_format, parse_programs, parse_row, parse_table_dir, parse_tables, parse_views,
  parse_scope, parse_users, parse_variables, parse_database, parse_parts, parse,
}

-- Not found, or exactly the fields of a node of the layout.
abbrev pub IsKnown : ParsedPath → Type 0
IsKnown r = (r.type ≡ NodeType.not_found) ⊎ ((n : Node) × (r ≡ parsed n))

module _ (db : Text) where
  abbrev at : ParsedPath
  at = record blank { database = db }

  parse_row-IsKnown :
      (t : Text) (ps : List Text) → IsKnown (parse_row (record at { object_name = t }) ps)
  unfolding parse_row
  parse_row-IsKnown t [] = inr (Node.table_item db t Layout.rows, refl)
  parse_row-IsKnown t (p ∷ _) =
      inr (Node.table_row_file db t (strip_extension p) (detect_format p), refl)

  parse_table_dir-IsKnown :
      (t : Text) (ps : List Text) → IsKnown (parse_table_dir (record at { object_name = t }) ps)
  unfolding parse_table_dir
  parse_table_dir-IsKnown t [] = inr (Node.table_dir db t, refl)
  parse_table_dir-IsKnown t (p ∷ ps) = elim (Bool-cases (text_eq p (codes ".schema"))) [
    | inl e ↦ inr (Node.table_item db t Layout.schema, rw e)
    | inr a ↦ elim (Bool-cases (text_eq p (codes ".indexes"))) [
      | inl e ↦ inr (Node.table_item db t Layout.indexes, rw (a, e))
      | inr b ↦ elim (Bool-cases (text_eq p (codes ".stats"))) [
        | inl e ↦ inr (Node.table_item db t Layout.stats, rw (a, b, e))
        | inr c ↦ elim (Bool-cases (text_eq p (codes "rows"))) [
          | inl e ↦ rw (a, b, c, e) (parse_row-IsKnown t ps)
          | inr d ↦ inl (rw (a, b, c, d))
        ]
      ]
    ]
  ]

  parse_tables-IsKnown : (ps : List Text) → IsKnown (parse_tables at ps)
  unfolding parse_tables
  parse_tables-IsKnown [] = inr (Node.tables_dir db, refl)
  parse_tables-IsKnown (p ∷ ps) = elim (Bool-cases (is_file_format (detect_format p))) [
    | inl e ↦ inr (Node.table_file db (strip_extension p) (detect_format p), rw e)
    | inr e ↦ rw e (parse_table_dir-IsKnown p ps)
  ]

  parse_views-IsKnown : (ps : List Text) → IsKnown (parse_views at ps)
  unfolding parse_views
  parse_views-IsKnown [] = inr (Node.views_dir db, refl)
  parse_views-IsKnown (p ∷ ps) = elim (Bool-cases (is_file_format (detect_format p))) [
    | inl e ↦ inr (Node.view_file db (strip_extension p) (detect_format p), rw e)
    | inr e ↦ inr (Node.view_dir db p, rw e)
  ]

  parse_programs-IsKnown :
      (k : Layout.Program) (ps : List Text)
      → IsKnown (parse_programs (Layout.program_dir_type k) (Layout.program_file_type k) at ps)
  unfolding parse_programs
  parse_programs-IsKnown k [] = inr (Node.programs_dir k db, refl)
  parse_programs-IsKnown k (p ∷ ps) = inr (Node.program_file k db (strip_extension p), refl)

  parse_database-IsKnown : (ps : List Text) → IsKnown (parse_database at ps)
  unfolding parse_database
  parse_database-IsKnown [] = inr (Node.database_dir db, refl)
  parse_database-IsKnown (p ∷ ps) = elim (Bool-cases (text_eq p (codes ".info"))) [
    | inl e ↦ inr (Node.database_info db, rw e)
    | inr a ↦ elim (Bool-cases (text_eq p (codes "tables"))) [
      | inl e ↦ rw (a, e) (parse_tables-IsKnown ps)
      | inr b ↦ elim (Bool-cases (text_eq p (codes "views"))) [
        | inl e ↦ rw (a, b, e) (parse_views-IsKnown ps)
        | inr c ↦ elim (Bool-cases (text_eq p (codes "procedures"))) [
          | inl e ↦ rw (a, b, c, e) (parse_programs-IsKnown Layout.procedures ps)
          | inr d ↦ elim (Bool-cases (text_eq p (codes "functions"))) [
            | inl e ↦ rw (a, b, c, d, e) (parse_programs-IsKnown Layout.functions ps)
            | inr f ↦ elim (Bool-cases (text_eq p (codes "triggers"))) [
              | inl e ↦ rw (a, b, c, d, f, e) (parse_programs-IsKnown Layout.triggers ps)
              | inr g ↦ inl (rw (a, b, c, d, f, g))
            ]
          ]
        ]
      ]
    ]
  ]

parse_scope-IsKnown :
    (s : Layout.Scope) (ps : List Text)
    → IsKnown (parse_scope (Layout.scope_type s) (Layout.scope_name s) ps)
unfolding parse_scope
parse_scope-IsKnown s [] = inr (Node.scope_dir s, refl)
parse_scope-IsKnown s (p ∷ ps) = inr (Node.variable_file s p, refl)

parse_variables-IsKnown : (ps : List Text) → IsKnown (parse_variables ps)
unfolding parse_variables
parse_variables-IsKnown [] = inr (Node.variables_dir, refl)
parse_variables-IsKnown (p ∷ ps) = elim (Bool-cases (text_eq p (codes "global"))) [
  | inl e ↦ rw e (parse_scope-IsKnown Layout.global ps)
  | inr a ↦ elim (Bool-cases (text_eq p (codes "session"))) [
    | inl e ↦ rw (a, e) (parse_scope-IsKnown Layout.session ps)
    | inr b ↦ inl (rw (a, b))
  ]
]

parse_users-IsKnown : (ps : List Text) → IsKnown (parse_users ps)
unfolding parse_users
parse_users-IsKnown [] = inr (Node.users_dir, refl)
parse_users-IsKnown (p ∷ ps) = inr (Node.user_file p, refl)

parse_parts-IsKnown : (ps : List Text) → IsKnown (parse_parts ps)
unfolding parse_parts
parse_parts-IsKnown [] = inr (Node.root, refl)
parse_parts-IsKnown (p ∷ ps) = elim (Bool-cases (text_eq p (codes ".server_info"))) [
  | inl e ↦ inr (Node.server_info, rw e)
  | inr a ↦ elim (Bool-cases (text_eq p (codes ".users"))) [
    | inl e ↦ rw (a, e) (parse_users-IsKnown ps)
    | inr b ↦ elim (Bool-cases (text_eq p (codes ".variables"))) [
      | inl e ↦ rw (a, b, e) (parse_variables-IsKnown ps)
      | inr c ↦ rw (a, b, c) (parse_database-IsKnown p ps)
    ]
  ]
]

-- Every path is either not found or parsed to the fields of one node of the layout.
pub parse-IsKnown : (path : Text) → IsKnown (parse path)
unfolding parse
parse-IsKnown path = parse_parts-IsKnown (split_path path)
