-- ===== src/Schema/Kind.antt =====
-- src/SchemaManager.cpp: the kinds of databases and their names, with the four backends compiled in.
use sql_fuse.Base.{Text, codes, if◌then◌else◌, leb, map, refl, text_eq, ℕ, ◌&&◌, ◌+◌, ◌||◌, ◌≡◌}
use sql_fuse.Fs.Types.{Query, answer, throws}

pub data DatabaseType : Type 0 where
  mysql sqlite postgresql oracle : DatabaseType

-- `std::tolower` in the C locale.
abbrev lower : ℕ → ℕ
lower c = if leb b'A' c && leb c b'Z' then c + 32 else c

unfoldable parse_database_type : Text → Query DatabaseType
unfolding text_eq
parse_database_type type =
    let s = map lower type in
    if text_eq s (codes "mysql") || text_eq s (codes "mariadb")
    then answer mysql
    else if text_eq s (codes "sqlite") || text_eq s (codes "sqlite3")
    then answer sqlite
    else if text_eq s (codes "postgresql")
        || (text_eq s (codes "postgres") || text_eq s (codes "pgsql"))
    then answer postgresql
    else if text_eq s (codes "oracle")
    then answer oracle
    else throws

unfoldable database_type_to_string : DatabaseType → Text
database_type_to_string mysql = codes "mysql"
database_type_to_string sqlite = codes "sqlite"
database_type_to_string postgresql = codes "postgresql"
database_type_to_string oracle = codes "oracle"

-- The name of each kind is read as that kind.
parse_database_type-database_type_to_string :
    (t : DatabaseType) → parse_database_type (database_type_to_string t) ≡ answer t
unfolding parse_database_type database_type_to_string text_eq
parse_database_type-database_type_to_string mysql = refl
parse_database_type-database_type_to_string sqlite = refl
parse_database_type-database_type_to_string postgresql = refl
parse_database_type-database_type_to_string oracle = refl
