-- ===== src/Router/Parts.antt =====
-- The parts of the path of a node of the layout of src/PathRouter.cpp.
use sql_fuse.Base.{All, All-append, Lacks, Text, [], arith, codes, refl, ℕ, ◌++◌, ◌∷◌, ◌≢◌}
use sql_fuse.Router.Types.{FileFormat, format_to_extension}
use sql_fuse.Router.Split.{IsPart}
use sql_fuse.Router.Layout.{
  Scope, global, session, Program, procedures, functions, triggers, TableItem, schema, indexes,
  stats, rows, Node, parts, IsNode, scope_name, program_name, item_name, root, server_info,
  users_dir, variables_dir, user_file, scope_dir, variable_file, database_dir, database_info,
  tables_dir, views_dir, table_file, view_file, table_dir, view_dir, table_item, table_row_file,
  programs_dir, program_file,
}

append-ne-nil : (s t : Text) (c : ℕ) → s ++ c ∷ t ≢ []
append-ne-nil [] t c h = ground arith
append-ne-nil (x ∷ s) t c h = ground arith

extension-IsPart :
    (t : Text) (f : FileFormat)
    → Lacks b'/' t
    → f ≢ FileFormat.none
    → IsPart (t ++ format_to_extension f)
unfolding format_to_extension
extension-IsPart t FileFormat.none l n = absurd (n refl)
extension-IsPart t FileFormat.csv l n =
    (append-ne-nil t _ _, All-append _ t (codes ".csv") l (omega arith))
extension-IsPart t FileFormat.json l n =
    (append-ne-nil t _ _, All-append _ t (codes ".json") l (omega arith))
extension-IsPart t FileFormat.sql l n =
    (append-ne-nil t _ _, All-append _ t (codes ".sql") l (omega arith))

-- A fixed part, such as `tables`.
fixed : (c : ℕ) (s : Text) → Lacks b'/' (c ∷ s) → IsPart (c ∷ s)
fixed c s l = ((λ e. ground arith), l)

program-IsPart : (k : Program) → IsPart (program_name k)
program-IsPart procedures = fixed _ _ (omega arith)
program-IsPart functions = fixed _ _ (omega arith)
program-IsPart triggers = fixed _ _ (omega arith)

scope-IsPart : (k : Scope) → IsPart (scope_name k)
scope-IsPart global = fixed _ _ (omega arith)
scope-IsPart session = fixed _ _ (omega arith)

item-IsPart : (k : TableItem) → IsPart (item_name k)
item-IsPart schema = fixed _ _ (omega arith)
item-IsPart indexes = fixed _ _ (omega arith)
item-IsPart stats = fixed _ _ (omega arith)
item-IsPart rows = fixed _ _ (omega arith)

tables-IsPart : IsPart (codes "tables")
tables-IsPart = fixed _ _ (omega arith)

views-IsPart : IsPart (codes "views")
views-IsPart = fixed _ _ (omega arith)

pub parts-IsPart : (n : Node) → IsNode n → All IsPart (parts n)
unfolding format_to_extension
parts-IsPart root h = tt
parts-IsPart server_info h = (fixed _ _ (omega arith), tt)
parts-IsPart users_dir h = (fixed _ _ (omega arith), tt)
parts-IsPart variables_dir h = (fixed _ _ (omega arith), tt)
parts-IsPart (user_file name) h = (fixed _ _ (omega arith), (h, tt))
parts-IsPart (scope_dir s) h = (fixed _ _ (omega arith), (scope-IsPart s, tt))
parts-IsPart (variable_file s name) h = (fixed _ _ (omega arith), (scope-IsPart s, (h, tt)))
parts-IsPart (database_dir db) h = (h.0, tt)
parts-IsPart (database_info db) h = (h.0, (fixed _ _ (omega arith), tt))
parts-IsPart (tables_dir db) h = (h.0, (tables-IsPart, tt))
parts-IsPart (views_dir db) h = (h.0, (views-IsPart, tt))
parts-IsPart (table_file db t f) (d, (l, n)) =
    (d.0, (tables-IsPart, (extension-IsPart t f l n, tt)))
parts-IsPart (view_file db v f) (d, (l, n)) = (d.0, (views-IsPart, (extension-IsPart v f l n, tt)))
parts-IsPart (table_dir db t) (d, p) = (d.0, (tables-IsPart, (p.0, tt)))
parts-IsPart (view_dir db v) (d, p) = (d.0, (views-IsPart, (p.0, tt)))
parts-IsPart (table_item db t i) (d, p) = (d.0, (tables-IsPart, (p.0, (item-IsPart i, tt))))
parts-IsPart (table_row_file db t id f) (d, p, (l, n)) =
    (d.0, (tables-IsPart, (p.0, (item-IsPart rows, (extension-IsPart id f l n, tt)))))
parts-IsPart (programs_dir k db) h = (h.0, (program-IsPart k, tt))
parts-IsPart (program_file k db name) (d, l) =
    (d.0, (program-IsPart k, (extension-IsPart name FileFormat.sql l (λ e. ground arith), tt)))
