-- ===== src/Sql/Tests.antt =====
-- The theorems on the statements at a small row.
use sql_fuse.Base.{
  Lacks, Text, [], codes, lacks, lacks_sound, none, refl, some, text_eq, true, ◌∷◌, ◌≡◌,
}
use sql_fuse.Csv.Types.{RowData}
use sql_fuse.Sql.Lexer.{standard, backslashes, outside, lex}
use sql_fuse.Sql.Pieces.{tokens_of}
use sql_fuse.Sql.Meaning.{insert_pieces, update_pieces, delete_pieces}
use sql_fuse.Sql.Sent.{c_str}
use sql_fuse.Sql.Whole.{RowLacks}
use sql_fuse.Sql.Sqlite
use sql_fuse.Sql.Sqlite.{lex-sqlite_statements}
use sql_fuse.Sql.Mysql
use sql_fuse.Sql.Mysql.{lex-mysql_statements}
use sql_fuse.Sql.Postgresql
use sql_fuse.Sql.Postgresql.{lex-postgresql_statements}

abbrev row : RowData
row =
    (codes "id", some (codes "1"))
    ∷ (codes "na\"me", some (codes "O'Brien\\"))
    ∷ (codes "x", none)
    ∷ []

whole : (s : Text) → lacks 0 s ≡ true → Lacks 0 s
whole s h = lacks_sound 0 s h

row-Lacks : RowLacks row
row-Lacks = (
  whole (codes "id") refl,
  (
    whole (codes "1") refl,
    (
      whole (codes "na\"me") refl,
      (whole (codes "O'Brien\\") refl, (whole (codes "x") refl, (tt, tt))),
    ),
  ),
)

lex-sqlite_statements_example :
    (lex standard outside (c_str (Sqlite.build_insert (codes "db.t") row true))
      ≡ some (tokens_of Sqlite.reads (insert_pieces (codes "db.t") row)))
    × (lex standard outside
          (c_str (Sqlite.build_update (codes "db.t") row (codes "id") (codes "1") true))
        ≡ some (tokens_of Sqlite.reads (update_pieces (codes "db.t") row (codes "id") (codes "1"))))
    × (lex standard outside
          (c_str (Sqlite.build_delete (codes "db.t") (codes "id") (codes "1") true))
        ≡ some (tokens_of Sqlite.reads (delete_pieces (codes "db.t") (codes "id") (codes "1"))))
lex-sqlite_statements_example =
    lex-sqlite_statements (codes "db.t") (codes "id") (some (codes "1"))
      ((codes "na\"me", some (codes "O'Brien\\")) ∷ (codes "x", none) ∷ []) (codes "id") (codes "1")
      (whole (codes "db.t") refl) row-Lacks (whole (codes "id") refl) (whole (codes "1") refl)

lex-mysql_statements_example :
    (lex backslashes outside (Mysql.build_insert (codes "db.t") row true)
      ≡ some (tokens_of Mysql.reads (insert_pieces (codes "db.t") row)))
    × (lex backslashes outside (Mysql.build_update (codes "db.t") row (codes "id") (codes "1") true)
        ≡ some (tokens_of Mysql.reads (update_pieces (codes "db.t") row (codes "id") (codes "1"))))
    × (lex backslashes outside (Mysql.build_delete (codes "db.t") (codes "id") (codes "1") true)
        ≡ some (tokens_of Mysql.reads (delete_pieces (codes "db.t") (codes "id") (codes "1"))))
lex-mysql_statements_example =
    lex-mysql_statements (codes "db.t") (codes "id") (some (codes "1"))
      ((codes "na\"me", some (codes "O'Brien\\")) ∷ (codes "x", none) ∷ []) (codes "id") (codes "1")

lex-postgresql_statements_example :
    (lex standard outside (c_str (Postgresql.build_insert (codes "db.t") row true))
      ≡ some (tokens_of Postgresql.reads (insert_pieces (codes "db.t") row)))
    × (lex standard outside
          (c_str (Postgresql.build_update (codes "db.t") row (codes "id") (codes "1") true))
        ≡ some (
            tokens_of Postgresql.reads (update_pieces (codes "db.t") row (codes "id") (codes "1"))))
    × (lex standard outside
          (c_str (Postgresql.build_delete (codes "db.t") (codes "id") (codes "1") true))
        ≡ some (tokens_of Postgresql.reads (delete_pieces (codes "db.t") (codes "id") (codes "1"))))
lex-postgresql_statements_example =
    lex-postgresql_statements (codes "db.t") (codes "id") (some (codes "1"))
      ((codes "na\"me", some (codes "O'Brien\\")) ∷ (codes "x", none) ∷ []) (codes "id") (codes "1")
      (whole (codes "db.t") refl) row-Lacks (whole (codes "id") refl) (whole (codes "1") refl)

-- A row of the key alone is updated to nothing: the statement has no assignment.
build_update_empty :
    Sqlite.build_update
      (codes "t")
      ((codes "id", some (codes "1")) ∷ [])
      (codes "id")
      (codes "1")
      true
    ≡ codes "UPDATE \"t\" SET  WHERE \"id\" = '1'"
unfolding Sqlite.build_update Sqlite.escape_identifier Sqlite.escape_sql text_eq
build_update_empty = refl

-- A value with a zero byte ends the statement inside its quotes.
c_str_test :
    lex standard outside
      (c_str (Sqlite.build_insert (codes "t") ((codes "a", some (0 ∷ [])) ∷ []) true))
    ≡ none
unfolding lex c_str Sqlite.build_insert Sqlite.escape_identifier Sqlite.escape_sql
c_str_test = refl
