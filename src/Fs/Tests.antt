-- ===== src/Fs/Tests.antt =====
-- The theorems on src/SQLFuseFS.cpp and src/VirtualFileHandleManager.cpp at a mounted database.
use sql_fuse.Base.{
  List, Text, [], arith, codes, false, mem, none, refl, some, text_eq, true, ℕ, ◌↔◌, ◌∷◌, ◌≡◌, ◌≢◌,
}
use sql_fuse.Router.Types.{FileFormat, ParsedPath}
use sql_fuse.Router.Split.{render}
use sql_fuse.Router.Layout.{Node, parts, parsed, IsDatabase}
use sql_fuse.Router.Samples.{shop-IsDatabase, users-IsPlain}
use sql_fuse.Cache.Samples.{two}
use sql_fuse.File.Types.{ok, err, enotdir, new_file}
use sql_fuse.Fs.Types.{SecurityConfig, HandleManager, SqlFuseFs, Schema, answer, throws}
use sql_fuse.Fs.Handles
use sql_fuse.Fs.HandleLaws.{IsNumbered, create-fresh}
use sql_fuse.Fs.Access.{Stat, getattr, is_database_allowed, fill_stat_for_node}
use sql_fuse.Fs.Listing.{readdir}
use sql_fuse.Fs.Calls.{rdwr, open_file}
use sql_fuse.Fs.Runs.{
  Call, readdir_call, unlink_call, Backend, open_call, read_call, write_call, flush_call,
  release_call,
}
use sql_fuse.Fs.Coherence.{
  IsFound, AllFound, getattr-table_file, readdir_tables-getattr, readdir_table-getattr,
}
use sql_fuse.Fs.Roots.{readdir_root-getattr, view_dir_unlisted}
use sql_fuse.Fs.Modes.{answer_by, open_file-getattr}

abbrev users_csv : ParsedPath
users_csv = parsed (Node.table_file (codes "shop") (codes "users") FileFormat.csv)

abbrev one_open : HandleManager
one_open = record { handles = (1, new_file users_csv) ∷ []; next_handle = 2 }

one_open-IsNumbered : IsNumbered one_open
unfolding Handles.get Handles.find_handle
one_open-IsNumbered h le = ground (arith, le)

create-fresh_example :
    (Handles.get 2 one_open ≡ none)
    × (Handles.get 2 (Handles.create users_csv one_open).0 ≡ some (new_file users_csv))
    × ((i : ℕ)
        → i ≢ 2
        → Handles.get i (Handles.create users_csv one_open).0 ≡ Handles.get i one_open)
    × IsNumbered (Handles.create users_csv one_open).0
unfolding Handles.create
create-fresh_example = create-fresh users_csv one_open (omega arith) one_open-IsNumbered

abbrev guarded : SecurityConfig
guarded = record {
  read_only = true;
  allowed_databases = [];
  denied_databases = codes "secret" ∷ [];
  expose_system_databases = false;
}

abbrev mounted : SqlFuseFs
mounted = record { security = guarded; rows_per_page = 100; cache = two; files = one_open }

abbrev calls : List Call
calls =
    readdir_call (codes "/shop/tables")
    ∷ open_call (codes "/shop/tables/users.csv") rdwr
    ∷ unlink_call (codes "/shop/tables/users/rows/1.json")
    ∷ write_call (codes "x") 0 1
    ∷ read_call 1 100 0 5
    ∷ flush_call 1
    ∷ release_call 1
    ∷ []

abbrev names : List Text
names = codes "shop" ∷ codes "secret" ∷ []

abbrev schema : Schema
schema = record {
  databases = answer names;
  database_exists = λ db. answer (mem db names);
  table_exists = λ db t. answer true;
  primary_key = λ db t. answer (some (codes "id"));
  tables = λ db. answer (codes "users" ∷ []);
  views = λ db. answer [];
  procedures = λ db. answer [];
  functions = λ db. answer [];
  triggers = λ db. answer [];
  row_ids = λ db t page. answer [];
  users = answer [];
  global_variables = throws;
  session_variables = throws;
}

visible : is_database_allowed guarded (codes "shop") ≡ true
unfolding is_database_allowed mem text_eq
visible = refl

open_file-getattr_example :
    (open_file
      (render (parts (Node.table_file (codes "shop") (codes "users") FileFormat.csv)))
      rdwr
      mounted).1
    ≡ answer_by (fill_stat_for_node guarded users_csv) rdwr 2
open_file-getattr_example =
    open_file-getattr schema
      (render (parts (Node.table_file (codes "shop") (codes "users") FileFormat.csv))) rdwr mounted
      (fill_stat_for_node guarded users_csv)
      (getattr-table_file guarded schema (codes "shop") shop-IsDatabase visible (codes "users")
        FileFormat.csv users-IsPlain (λ e. cc) refl)

readdir_tables-getattr_example :
    (es : List Text) × (readdir guarded schema 100 (render (parts (Node.tables_dir (codes "shop"))))
      ≡ (codes "." ∷ codes ".." ∷ es, ok tt))
    × AllFound guarded schema
        (codes "shop")
        shop-IsDatabase
        visible
        (parts (Node.tables_dir (codes "shop")))
        es
readdir_tables-getattr_example =
    readdir_tables-getattr guarded schema (codes "shop") shop-IsDatabase visible 100
      (codes "users" ∷ []) refl ((users-IsPlain, refl), tt)

readdir_table-getattr_example :
    (es : List Text) × (readdir guarded schema 100
        (render (parts (Node.table_dir (codes "shop") (codes "users"))))
      ≡ (codes "." ∷ codes ".." ∷ es, ok tt))
    × AllFound guarded schema
        (codes "shop")
        shop-IsDatabase
        visible
        (parts (Node.table_dir (codes "shop") (codes "users")))
        es
readdir_table-getattr_example =
    readdir_table-getattr guarded schema (codes "shop") shop-IsDatabase visible 100 (codes "users")
      users-IsPlain refl

readdir_root-getattr_example :
    (es : List Text) × (readdir guarded schema 100 (render (parts Node.root))
      ≡ (codes "." ∷ codes ".." ∷ es, ok tt))
    × ((db : Text)
        → IsDatabase db
        → (mem db es ≡ true) ↔ IsFound guarded schema (parts (Node.database_dir db)))
readdir_root-getattr_example = readdir_root-getattr guarded schema 100 names refl (λ db. refl)

view_dir_unlisted_example :
    (st : Stat) × (getattr guarded schema
        (render (parts (Node.view_dir (codes "shop") (codes "users"))))
      ≡ ok st)
    × (st.is_dir ≡ true)
    × ((readdir guarded schema 100
          (render (parts (Node.view_dir (codes "shop") (codes "users"))))).1
        ≡ err enotdir)
view_dir_unlisted_example =
    view_dir_unlisted guarded schema 100 (codes "shop") (codes "users") shop-IsDatabase
      users-IsPlain visible
