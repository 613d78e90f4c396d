-- ===== src/Fs/Listing.antt =====
-- `readdir` of src/SQLFuseFS.cpp and the functions that fill the directories. An entry is what
-- `filler` is called with; entries that were filled before an exception stay.
use sql_fuse.Base.{List, Text, [], codes, if◌then◌else◌, map, ℕ, ◌++◌, ◌∷◌}
use sql_fuse.Router.Types.{NodeType, ParsedPath}
use sql_fuse.Router.{parse}
use sql_fuse.File.Types.{Reply, ok, err, eio, enotdir}
use sql_fuse.Fs.Types.{SecurityConfig, Schema, Query, answer, throws, UserInfo}
use sql_fuse.Fs.Access.{is_database_allowed}

abbrev pub Listing : Type 0
Listing = List Text × Reply (Unit {0})

fill {ℓ} : {A : Type ℓ} → (A → List Text) → Query A → Listing
fill entries throws = ([], err eio)
fill entries (answer a) = (entries a, ok tt)

unfoldable pub each : (Text → List Text) → List Text → List Text
each f [] = []
each f (name ∷ names) = f name ++ each f names

unfoldable pub allowed : SecurityConfig → List Text → List Text
allowed s [] = []
allowed s (db ∷ dbs) = if is_database_allowed s db then db ∷ allowed s dbs else allowed s dbs

unfoldable pub root_entries : SecurityConfig → List Text → List Text
unfolding allowed
root_entries s dbs =
    allowed s dbs ++ (codes ".server_info" ∷ codes ".users" ∷ codes ".variables" ∷ [])

abbrev pub database_entries : List Text
database_entries =
    codes "tables"
    ∷ codes "views"
    ∷ codes "procedures"
    ∷ codes "functions"
    ∷ codes "triggers"
    ∷ codes ".info"
    ∷ []

abbrev pub view_files : Text → List Text
view_files name = (name ++ codes ".csv") ∷ (name ++ codes ".json") ∷ (name ++ codes ".sql") ∷ []

abbrev pub table_files : Text → List Text
table_files name = name ∷ view_files name

abbrev pub table_entries : List Text
table_entries = codes ".schema" ∷ codes ".indexes" ∷ codes ".stats" ∷ codes "rows" ∷ []

abbrev pub row_files : Text → List Text
row_files id = (id ++ codes ".json") ∷ []

abbrev pub program_files : Text → List Text
program_files name = (name ++ codes ".sql") ∷ []

user_files : List UserInfo → List Text
user_files [] = []
user_files (u ∷ us) = (u.user ++ (codes "@" ++ (u.host ++ codes ".info"))) ∷ user_files us

unfoldable pub fill_dir : SecurityConfig → Schema → ℕ → ParsedPath → NodeType → Listing
unfolding fill each root_entries user_files
fill_dir s q page p NodeType.root = fill (root_entries s) q.databases
fill_dir s q page p NodeType.database = (database_entries, ok tt)
fill_dir s q page p NodeType.tables_dir = fill (each table_files) (q.tables p.database)
fill_dir s q page p NodeType.table_dir = (table_entries, ok tt)
fill_dir s q page p NodeType.table_rows_dir =
    fill (each row_files) (q.row_ids p.database p.object_name page)
fill_dir s q page p NodeType.views_dir = fill (each view_files) (q.views p.database)
fill_dir s q page p NodeType.procedures_dir = fill (each program_files) (q.procedures p.database)
fill_dir s q page p NodeType.functions_dir = fill (each program_files) (q.functions p.database)
fill_dir s q page p NodeType.triggers_dir = fill (each program_files) (q.triggers p.database)
fill_dir s q page p NodeType.users_dir = fill user_files q.users
fill_dir s q page p NodeType.variables_dir = (codes "global" ∷ codes "session" ∷ [], ok tt)
fill_dir s q page p NodeType.global_variables_dir = fill (map (λ e. e.0)) q.global_variables
fill_dir s q page p NodeType.session_variables_dir = fill (map (λ e. e.0)) q.session_variables
fill_dir s q page p _ = ([], err enotdir)

unfoldable pub readdir : SecurityConfig → Schema → ℕ → Text → Listing
readdir s q page path =
    let p = parse path in
    let (entries, result) = fill_dir s q page p p.type in (codes "." ∷ codes ".." ∷ entries, result)
