-- ===== src/Fs/Roots.antt =====
-- What `readdir` of src/SQLFuseFS.cpp lists of the databases and of a view, and what `getattr` finds.
use sql_fuse.Base.{
  Bool, Bool-cases, List, Text, [], arith, codes, false, inl, inr, mem, mem-append, refl, sym,
  text_eq-ne, text_eq_iff, true, ℕ, ◌&&◌, ◌↔◌, ◌∙◌, ◌∷◌, ◌≡◌,
}
use sql_fuse.Router.Types.{is_directory_type}
use sql_fuse.Router.Split.{render}
use sql_fuse.Router.Layout.{Node, parts, parsed, IsDatabase, IsPlain}
use sql_fuse.Router.RoundTrip.{parse-render}
use sql_fuse.File.Types.{ok, err, enoent, enotdir}
use sql_fuse.Fs.Types.{SecurityConfig, Schema, answer}
use sql_fuse.Fs.Access.{
  exists_if, stat_after, is_database_allowed, Stat, fill_stat_for_node, verify, getattr_parsed,
  getattr,
}
use sql_fuse.Fs.Listing.{allowed, root_entries, fill_dir, readdir}
use sql_fuse.Fs.Coherence.{IsFound, getattr-node}

mem-allowed :
    (s : SecurityConfig) (db : Text) (dbs : List Text)
    → mem db (allowed s dbs) ≡ mem db dbs && is_database_allowed s db
unfolding mem allowed
mem-allowed s db [] = refl
mem-allowed s db (x ∷ dbs) = ground (arith, mem-allowed s db dbs, text_eq_iff x db)

root_names :
    (db : Text)
    → IsDatabase db
    → mem db (codes ".server_info" ∷ codes ".users" ∷ codes ".variables" ∷ []) ≡ false
unfolding mem
root_names db (_, a, b, c) = rw (
  text_eq-ne (codes ".server_info") db (λ e. a (sym e)),
  text_eq-ne (codes ".users") db (λ e. b (sym e)),
  text_eq-ne (codes ".variables") db (λ e. c (sym e)),
)

mem-root_entries :
    (s : SecurityConfig) (db : Text) (dbs : List Text)
    → IsDatabase db
    → mem db (root_entries s dbs) ≡ mem db dbs && is_database_allowed s db
unfolding root_entries mem
mem-root_entries s db dbs d =
    mem-append db (allowed s dbs) _ ∙ ground (arith, mem-allowed s db dbs, root_names db d)

getattr-hidden :
    (s : SecurityConfig) (q : Schema) (db : Text)
    → IsDatabase db
    → is_database_allowed s db ≡ false
    → getattr s q (render (parts (Node.database_dir db))) ≡ err enoent
unfolding getattr_parsed
getattr-hidden s q [] d h = absurd (d.0.0 refl)
getattr-hidden s q (b ∷ db) d h = rw (getattr-node s q (Node.database_dir (b ∷ db)) d, h) refl

getattr-database :
    (s : SecurityConfig) (q : Schema) (db : Text)
    → IsDatabase db
    → is_database_allowed s db ≡ true
    → getattr s q (render (parts (Node.database_dir db)))
      ≡ stat_after s (parsed (Node.database_dir db)) (exists_if (q.database_exists db))
unfolding getattr_parsed verify
getattr-database s q db d h = rw (getattr-node s q (Node.database_dir db) d, h) (ground arith)

IsFound-known :
    (s : SecurityConfig) (q : Schema) (db : Text) (known : Bool)
    → getattr s q (render (parts (Node.database_dir db)))
      ≡ stat_after s (parsed (Node.database_dir db)) (exists_if (answer known))
    → is_database_allowed s db ≡ true
    → ((known && is_database_allowed s db) ≡ true) ↔ IsFound s q (parts (Node.database_dir db))
unfolding stat_after exists_if
IsFound-known s q db true e h = (λ k. (_, e), λ k. h)
IsFound-known s q db false e h = (λ k. absurd cc, λ (st, k). absurd cc)

IsFound-database :
    (s : SecurityConfig) (q : Schema) (db : Text) (known : Bool)
    → IsDatabase db
    → q.database_exists db ≡ answer known
    → ((known && is_database_allowed s db) ≡ true) ↔ IsFound s q (parts (Node.database_dir db))
unfolding stat_after exists_if
IsFound-database s q db known d e = elim (Bool-cases (is_database_allowed s db)) [
  | inr h ↦
      (λ k. absurd (ground (arith, h, k)), λ (st, k). absurd (cc (k, getattr-hidden s q db d h)))
  | inl h ↦ IsFound-known s q db known (getattr-database s q db d h ∙ rw e refl) h
]

-- Where the schema manager agrees with its list of the databases, the listing of the root
-- succeeds, and it has exactly those databases that `getattr` finds.
pub readdir_root-getattr :
    (s : SecurityConfig) (q : Schema) (page : ℕ) (dbs : List Text)
    → q.databases ≡ answer dbs
    → ((db : Text) → q.database_exists db ≡ answer (mem db dbs))
    → (es : List Text) × (readdir s q page (render (parts Node.root))
        ≡ (codes "." ∷ codes ".." ∷ es, ok tt))
      × ((db : Text)
          → IsDatabase db
          → (mem db es ≡ true) ↔ IsFound s q (parts (Node.database_dir db)))
unfolding readdir fill_dir
readdir_root-getattr s q page dbs e known = (
  root_entries s dbs,
  rw (parse-render Node.root tt, e) refl,
  λ db d.
      let (there, back) = IsFound-database s q db (mem db dbs) d (known db) in
      (
        λ k. there (sym (mem-root_entries s db dbs d) ∙ k),
        λ k. mem-root_entries s db dbs d ∙ back k,
      ),
)

-- In a visible database, the directory of a view without an extension is a directory for
-- `getattr`, and cannot be listed.
pub view_dir_unlisted :
    (s : SecurityConfig) (q : Schema) (page : ℕ) (db v : Text)
    → IsDatabase db
    → IsPlain v
    → is_database_allowed s db ≡ true
    → (st : Stat) × (getattr s q (render (parts (Node.view_dir db v))) ≡ ok st)
      × (st.is_dir ≡ true)
      × ((readdir s q page (render (parts (Node.view_dir db v)))).1 ≡ err enotdir)
unfolding getattr_parsed verify readdir fill_dir fill_stat_for_node is_directory_type
view_dir_unlisted s q page db v d p h = (
  fill_stat_for_node s (parsed (Node.view_dir db v)),
  rw (getattr-node s q (Node.view_dir db v) (d, p), h) (ground arith),
  refl,
  rw (parse-render (Node.view_dir db v) (d, p)) refl,
)
