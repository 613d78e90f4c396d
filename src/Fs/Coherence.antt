-- ===== src/Fs/Coherence.antt =====
-- What `readdir` of src/SQLFuseFS.cpp lists of the tables, and what `getattr` finds.
use sql_fuse.Base.{All, List, Text, [], arith, codes, refl, true, ℕ, ◌++◌, ◌∷◌, ◌≡◌, ◌≢◌}
use sql_fuse.Router.Types.{FileFormat, format_to_extension}
use sql_fuse.Router.Split.{render}
use sql_fuse.Router.Layout.{Node, TableItem, parts, parsed, IsDatabase, IsPlain, IsNode}
use sql_fuse.Router.RoundTrip.{parse-render}
use sql_fuse.File.Types.{ok}
use sql_fuse.Fs.Types.{SecurityConfig, Schema, answer}
use sql_fuse.Fs.Access.{
  is_database_allowed, Stat, fill_stat_for_node, verify, getattr_parsed, getattr,
}
use sql_fuse.Fs.Listing.{each, table_files, table_entries, fill_dir, readdir}

-- `getattr` finds the path with these parts.
abbrev pub IsFound : SecurityConfig → Schema → List Text → Type 0
IsFound s q ps = (st : Stat) × (getattr s q (render ps) ≡ ok st)

pub getattr-node :
    (s : SecurityConfig) (q : Schema) (n : Node)
    → IsNode n
    → getattr s q (render (parts n)) ≡ getattr_parsed s q (parsed n)
unfolding getattr
getattr-node s q n k = rw (parse-render n k) refl

module _ (s : SecurityConfig) (q : Schema) (db : Text) (d : IsDatabase db)
    (shown : is_database_allowed s db ≡ true) where
  getattr-table_dir :
      (t : Text)
      → IsPlain t
      → q.table_exists db t ≡ answer true
      → getattr s q (render (parts (Node.table_dir db t)))
        ≡ ok (fill_stat_for_node s (parsed (Node.table_dir db t)))
  unfolding getattr_parsed verify
  getattr-table_dir t p e =
      rw (getattr-node s q (Node.table_dir db t) (d, p), shown, e) (ground arith)

  pub getattr-table_file :
      (t : Text) (f : FileFormat)
      → IsPlain t
      → f ≢ FileFormat.none
      → q.table_exists db t ≡ answer true
      → getattr s q (render (parts (Node.table_file db t f)))
        ≡ ok (fill_stat_for_node s (parsed (Node.table_file db t f)))
  unfolding getattr_parsed verify
  getattr-table_file t f p n e =
      rw (getattr-node s q (Node.table_file db t f) (d, (p.0.1, n)), shown, e) (ground arith)

  getattr-table_item :
      (t : Text) (i : TableItem)
      → IsPlain t
      → q.table_exists db t ≡ answer true
      → getattr s q (render (parts (Node.table_item db t i)))
        ≡ ok (fill_stat_for_node s (parsed (Node.table_item db t i)))
  unfolding getattr_parsed verify
  getattr-table_item t TableItem.schema p e =
      rw (getattr-node s q (Node.table_item db t TableItem.schema) (d, p), shown, e) (ground arith)
  getattr-table_item t TableItem.indexes p e =
      rw (getattr-node s q (Node.table_item db t TableItem.indexes) (d, p), shown, e) (ground arith)
  getattr-table_item t TableItem.stats p e =
      rw (getattr-node s q (Node.table_item db t TableItem.stats) (d, p), shown, e) (ground arith)
  getattr-table_item t TableItem.rows p e =
      rw (getattr-node s q (Node.table_item db t TableItem.rows) (d, p), shown, e) (ground arith)

  -- Every path in the directory of the tables with one of these names is found.
  abbrev pub AllFound : List Text → List Text → Type 0
  AllFound above es = All (λ e. IsFound s q (above ++ e ∷ [])) es

  abbrev pub Tables : List Text → Type 0
  Tables ts = All (λ t. IsPlain t × (q.table_exists db t ≡ answer true)) ts

  each-found :
      (ts : List Text) → Tables ts → AllFound (db ∷ codes "tables" ∷ []) (each table_files ts)
  unfolding each format_to_extension
  each-found [] k = tt
  each-found (t ∷ ts) ((p, e), k) =
      let csv = getattr-table_file t FileFormat.csv p (λ h. cc) e in
      let json = getattr-table_file t FileFormat.json p (λ h. cc) e in
      let sql = getattr-table_file t FileFormat.sql p (λ h. cc) e in
      ((_, getattr-table_dir t p e), ((_, csv), ((_, json), ((_, sql), each-found ts k))))

  -- In a visible database whose tables exist and have names without an extension, the listing of
  -- the directory `tables` succeeds, and `getattr` finds every entry of it.
  pub readdir_tables-getattr :
      (page : ℕ) (ts : List Text)
      → q.tables db ≡ answer ts
      → Tables ts
      → (es : List Text) × (readdir s q page (render (parts (Node.tables_dir db)))
          ≡ (codes "." ∷ codes ".." ∷ es, ok tt))
        × AllFound (parts (Node.tables_dir db)) es
  unfolding readdir fill_dir
  readdir_tables-getattr page ts e k =
      (each table_files ts, rw (parse-render (Node.tables_dir db) d, e) refl, each-found ts k)

  -- In a visible database with the table, the listing of the table's directory succeeds, and
  -- `getattr` finds every entry of it.
  pub readdir_table-getattr :
      (page : ℕ) (t : Text)
      → IsPlain t
      → q.table_exists db t ≡ answer true
      → (es : List Text) × (readdir s q page (render (parts (Node.table_dir db t)))
          ≡ (codes "." ∷ codes ".." ∷ es, ok tt))
        × AllFound (parts (Node.table_dir db t)) es
  unfolding readdir fill_dir
  readdir_table-getattr page t p e = (
    table_entries,
    rw (parse-render (Node.table_dir db t) (d, p)) refl,
    (
      (_, getattr-table_item t TableItem.schema p e),
      (
        (_, getattr-table_item t TableItem.indexes p e),
        (
          (_, getattr-table_item t TableItem.stats p e),
          ((_, getattr-table_item t TableItem.rows p e), tt),
        ),
      ),
    ),
  )
