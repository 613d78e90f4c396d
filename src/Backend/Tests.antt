-- ===== src/Backend/Tests.antt =====
-- The modules of `Backend` on inputs.
use sql_fuse.Base.{
  Lacks, List, Text, [], codes, false, if◌then◌else◌, is_empty, lacks, lacks_sound, none, pos, refl,
  some, text_eq, true, ◌++◌, ◌∷◌, ◌≡◌, ◌⊎◌,
}
use sql_fuse.Cache.Types.{CacheManager}
use sql_fuse.Cache.Valid.{IsValid}
use sql_fuse.Cache.Samples.{two, two-IsValid}
use sql_fuse.Csv.Types.{RowData, SqlValue, default_options}
use sql_fuse.Csv.Write.{to_csv, row_line}
use sql_fuse.Csv.Documents.{IsWritable}
use sql_fuse.Router.Types.{ParsedPath, FileFormat}
use sql_fuse.Router.{parse, parse_parts}
use sql_fuse.Router.Split.{split_path}
use sql_fuse.Router.Layout.{Node, parsed}
use sql_fuse.File.Types.{Errno, ok, err, enospc, VirtualFile, new_file}
use sql_fuse.Errors.Errno.{oracle_to_errno}
use sql_fuse.File.Flushed.{IsForgotten}
use sql_fuse.Errors.Samples.{known}
use sql_fuse.Sql.Lexer.{standard, outside, lex}
use sql_fuse.Sql.Pieces.{tokens_of}
use sql_fuse.Sql.Meaning.{update_pieces}
use sql_fuse.Sql.Sent.{c_str}
use sql_fuse.Sql.Whole.{RowLacks}
use sql_fuse.Sql.Sqlite.{reads}
use sql_fuse.Backend.Types.{executed, DbError, Database, gives, threw, Tools}
use sql_fuse.Backend.Write.{insert_rows, refused, handle_table_write}
use sql_fuse.Backend.Written.{finished, stopped, statements, Accepts, insert_rows-cases}
use sql_fuse.Backend.Copied.{rows_read}
use sql_fuse.File.Flush.{flush}
use sql_fuse.Backend.Saved.{handlers, flush-to_csv}
use sql_fuse.Backend.Sqlite
use sql_fuse.Backend.Oracle
use sql_fuse.Backend.Mysql
use sql_fuse.Backend.Postgresql
use sql_fuse.Router.Names.{detect_format}
use sql_fuse.Backend.Quotes.{lex-sqlite_rows}
use sql_fuse.Backend.Spelled.{new_row_pieces, check_pieces}
use sql_fuse.Schema.Kind.{mysql}
use sql_fuse.Backend.Unlink.{delete_sql, deleted, Unlinked, Reach, unlink}
use sql_fuse.Backend.Removed.{unlink-IsForgotten, unlink-kept}

abbrev accepting : Database
accepting = record { refuses = λ history sql. none; selects = λ history sql. some [] }

-- A database that takes one statement.
abbrev one_only : Database
one_only = record {
  refuses = λ history sql.
      if is_empty history
      then none
      else some (record { message = codes "full"; number = pos 1653 });
  selects = λ history sql. some [];
}

abbrev users : ParsedPath
users = parsed (Node.table_file (codes "shop") (codes "users") FileFormat.csv)

abbrev cells : RowData
cells = (codes "id", some (codes "1")) ∷ (codes "name", none) ∷ []

-- The first row stays in the transaction of the connection, without a commit, when Oracle refuses the
-- second.
oracle_test : insert_rows Oracle.dialect one_only users (cells ∷ cells ∷ []) [] [] ≡ record {
  history = executed (Oracle.dialect.insert_row users cells) ∷ [];
  last_error = codes "full";
  reply = err enospc;
}
unfolding insert_rows refused Oracle.dialect oracle_to_errno
oracle_test = refl

insert_rows-cases_example :
    (Accepts Oracle.dialect one_only users [] (cells ∷ cells ∷ [])
      × (insert_rows Oracle.dialect one_only users (cells ∷ cells ∷ []) [] []
          ≡ finished Oracle.dialect (statements Oracle.dialect users (cells ∷ cells ∷ [])) []))
    ⊎ ((before : List RowData) × (row : RowData) × (after : List RowData) × (e : DbError) × (cells
            ∷ cells ∷ []
          ≡ before ++ row ∷ after)
        × Accepts Oracle.dialect one_only users [] before
        × (one_only.refuses
              (statements Oracle.dialect users before)
              (Oracle.dialect.insert_row users row)
            ≡ some e)
        × (insert_rows Oracle.dialect one_only users (cells ∷ cells ∷ []) [] []
            ≡ stopped Oracle.dialect (statements Oracle.dialect users before) e))
insert_rows-cases_example =
    insert_rows-cases Oracle.dialect one_only users [] (cells ∷ cells ∷ []) []

abbrev tools : Tools
tools = record {
  parse_json = λ s. threw (codes "JSON parse error");
  parse_json_row = λ s. gives cells;
  primary_key = λ db t. gives (some (codes "id"));
}

abbrev values : List SqlValue
values = some (codes "1") ∷ some (codes "a,b") ∷ []

abbrev written : VirtualFile
written = record (new_file users) {
  modified = true;
  write_buffer = to_csv default_options (codes "id" ∷ codes "name" ∷ []) (values ∷ []);
}

names-IsWritable : IsWritable default_options (some (codes "id") ∷ some (codes "name") ∷ [])
unfolding row_line
names-IsWritable =
    ((λ e. cc), (lacks_sound b'\n' (codes "id") refl, (lacks_sound b'\n' (codes "name") refl, tt)))

values-IsWritable : IsWritable default_options values
unfolding row_line
values-IsWritable =
    ((λ e. cc), (lacks_sound b'\n' (codes "1") refl, (lacks_sound b'\n' (codes "a,b") refl, tt)))

flush-to_csv_example :
    (handle_table_write Sqlite.dialect tools (some (gives accepting)) written []
      ≡ finished Sqlite.dialect
          (statements Sqlite.dialect users
            (rows_read (codes "id" ∷ codes "name" ∷ []) (values ∷ [])))
          [])
    × (c' : CacheManager) × (f' : VirtualFile) × (flush
          (handlers Sqlite.dialect tools (some (gives accepting)) [])
          written
          two
        ≡ some (c', f', ok tt))
    × (f'.modified ≡ false)
    × (f'.write_buffer ≡ [])
    × IsValid c'
    × IsForgotten (codes "shop") (codes "users") 9 c'
flush-to_csv_example =
    flush-to_csv Sqlite.dialect tools accepting written [] (codes "id") (codes "name" ∷ [])
      (values ∷ []) two 9 refl refl (λ e. absurd cc) (λ e. absurd cc) refl refl names-IsWritable
      (values-IsWritable, tt) (refl, tt) two-IsValid

-- Without a pool of its own kind, a handler says so.
pool_test :
    ((Mysql.handle_table_write known tools none written []).last_error
      ≡ codes "No MySQL connection pool")
    × ((Sqlite.handle_row_write tools none written []).last_error
        ≡ codes "No SQLite connection pool")
    × ((Postgresql.handle_row_write tools none written []).last_error
        ≡ codes "No PostgreSQL connection pool")
    × ((Oracle.handle_table_write tools none written []).last_error
        ≡ codes "No Oracle connection pool")
unfolding Mysql.handle_table_write Sqlite.handle_row_write Postgresql.handle_row_write
    Oracle.handle_table_write to_csv
pool_test = (refl, refl, refl, refl)

quoteless : (s : Text) → lacks b'"' s ≡ true → Lacks b'"' s
quoteless s h = lacks_sound b'"' s h

whole : (s : Text) → lacks 0 s ≡ true → Lacks 0 s
whole s h = lacks_sound 0 s h

cells-Lacks : RowLacks cells
cells-Lacks =
    (whole (codes "id") refl, (whole (codes "1") refl, (whole (codes "name") refl, (tt, tt))))

lex-sqlite_rows_example :
    (lex standard outside (c_str (Sqlite.dialect.insert_row users cells))
      ≡ some (
          tokens_of reads (new_row_pieces (codes "INSERT OR REPLACE INTO ") (codes "users") cells)))
    × (lex standard outside (c_str (Sqlite.dialect.new_row users cells))
        ≡ some (tokens_of reads (new_row_pieces (codes "INSERT INTO ") (codes "users") cells)))
    × (lex standard outside (c_str (Sqlite.dialect.update_row users cells (codes "id")))
        ≡ some (tokens_of reads (update_pieces (codes "users") cells (codes "id") [])))
    × (lex standard outside (c_str (Sqlite.dialect.check_row users (codes "id")))
        ≡ some (tokens_of reads (check_pieces (codes "users") (codes "id") [])))
lex-sqlite_rows_example =
    lex-sqlite_rows users (codes "id") (some (codes "1")) ((codes "name", none) ∷ []) (codes "id")
      (quoteless (codes "users") refl)
      (quoteless (codes "id") refl, (quoteless (codes "name") refl, tt))
      (quoteless (codes "id") refl) (whole (codes "users") refl) cells-Lacks
      (whole (codes "id") refl) (whole [] refl)

abbrev reach : Reach
reach = record {
  type = mysql;
  pool = some (gives accepting);
  affected_rows = λ history sql. 1;
  primary_key = λ db t. gives (some (codes "id"));
}

abbrev row_path : Text
row_path = codes "/db/tables/a/rows/1.json"

unlink-IsForgotten_example :
    (c' : CacheManager) × (unlink known reach false row_path [] two
      ≡ some (record {
        history = deleted mysql (delete_sql mysql (parse row_path) (codes "id"));
        cache = c';
        reply = ok tt;
      }))
    × IsValid c'
    × IsForgotten (codes "db") (codes "a") 7 c'
unfolding parse split_path parse_parts text_eq detect_format
unlink-IsForgotten_example =
    unlink-IsForgotten known reach row_path (codes "id") accepting [] two 7 two-IsValid refl
      (λ e. absurd cc) refl refl refl refl refl

unlink-kept_example :
    (u : Unlinked) × (unlink known reach true row_path [] two ≡ some u)
    × IsValid u.cache
    × ((e : Errno) → u.reply ≡ err e → u.cache ≡ two)
unlink-kept_example = unlink-kept known reach true row_path [] two two-IsValid
