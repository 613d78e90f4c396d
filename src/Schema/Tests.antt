-- ===== src/Schema/Tests.antt =====
-- The modules of `Schema` on inputs.
use sql_fuse.Base.{
  All, List, Text, [], arith, codes, lacks_sound, lookup, negsuc, none, refl, some, text_eq, true,
  ◌-◌, ◌^◌, ◌∷◌, ◌≡◌,
}
use sql_fuse.Cache.Types.{CacheManager}
use sql_fuse.Cache.Valid.{IsValid}
use sql_fuse.Cache.Samples.{two, two-IsValid}
use sql_fuse.Fs.Types.{answer}
use sql_fuse.Sql.Lexer.{backslashes, standard, outside, lex}
use sql_fuse.Sql.Pieces.{tokens_of}
use sql_fuse.Schema.Server.{Server, stoull, stoi, Row, signed_number, unsigned_number, digits}
use sql_fuse.Schema.Cached.{make_key, join_lines, lines_from, lines_of, fails, listed}
use sql_fuse.Schema.Lines.{IsLine, lines_of-join_lines}
use sql_fuse.Schema.Memo.{Call, lookup_run, memo_run}
use sql_fuse.Schema.Refines.{lookup_run-memo_run}
use sql_fuse.Schema.Reading.{lex-sql_of}
use sql_fuse.Schema.Mysql
use sql_fuse.Schema.Mysql.Details.{get_indexes}
use sql_fuse.Schema.Sqlite
use sql_fuse.Schema.Sqlite.Details.{trigger_event}
use sql_fuse.Schema.Postgresql
use sql_fuse.Schema.Oracle

abbrev evil : Text
evil = codes "x'; DROP TABLE \"t\"; # `\\"

lex-sql_of_example :
    (lex backslashes outside
        (Mysql.Statements.sql_of (Mysql.Statements.for_row_ids evil evil evil 10 20))
      ≡ some (
          tokens_of Mysql.Reading.reads
            (Mysql.Intended.pieces_of (Mysql.Statements.for_row_ids evil evil evil 10 20))))
    × (lex standard outside
          (Sqlite.Statements.sql_of (Sqlite.Statements.for_trigger_info evil evil))
        ≡ some (
            tokens_of Sqlite.Reading.reads
              (Sqlite.Intended.pieces_of (Sqlite.Statements.for_trigger_info evil evil))))
    × (lex standard outside (Postgresql.Statements.sql_of (Postgresql.Statements.for_columns evil))
        ≡ some (
            tokens_of Postgresql.Reading.reads
              (Postgresql.Intended.pieces_of (Postgresql.Statements.for_columns evil))))
    × (lex standard outside (Oracle.Statements.sql_of (Oracle.Statements.for_table_info evil evil))
        ≡ some (
            tokens_of Oracle.Reading.reads
              (Oracle.Intended.pieces_of (Oracle.Statements.for_table_info evil evil))))
lex-sql_of_example =
    lex-sql_of (Mysql.Statements.for_row_ids evil evil evil 10 20)
      (Sqlite.Statements.for_trigger_info evil evil) (Postgresql.Statements.for_columns evil)
      (Oracle.Statements.for_table_info evil evil)

abbrev names : List Text
names = codes "t" ∷ codes "u v" ∷ []

names-lines : All IsLine names
names-lines =
    ((refl, lacks_sound b'\n' (codes "t") refl), ((refl, lacks_sound b'\n' (codes "u v") refl), tt))

names_test : lines_of (join_lines names) ≡ names
names_test = lines_of-join_lines names names-lines

-- A name with a line feed is two names when the list is read back.
split_test : lines_of (join_lines (codes "a\nb" ∷ [])) ≡ codes "a" ∷ codes "b" ∷ []
unfolding join_lines lines_from
split_test = refl

abbrev tables_key : Text
tables_key = make_key (codes "shop") (codes "tables") []

-- The list is read, answered while it is young although the database has lost it, and read again.
abbrev calls : List Call
calls =
    record { now = 1; later = 2; fetched = listed names }
    ∷ record { now = 11; later = 11; fetched = fails }
    ∷ record { now = 12; later = 13; fetched = listed [] }
    ∷ []

lookup_run-memo_run_example :
    (c' : CacheManager) × (lookup_run tables_key calls two ≡ some (c', memo_run 10 calls none))
    × IsValid c'
unfolding lookup text_eq make_key
lookup_run-memo_run_example =
    lookup_run-memo_run tables_key 10 calls 0 two two-IsValid refl refl (λ later since. refl)
      (
        omega arith,
        omega arith,
        names-lines,
        (omega arith, omega arith, tt, (omega arith, omega arith, tt, tt)),
      )

memo_test : memo_run 10 calls none ≡ answer names ∷ answer names ∷ answer [] ∷ []
unfolding memo_run
memo_test = refl

-- What `reltuples` is for a table that was never analysed.
stoull_test : stoull (codes "-1") ≡ answer (2 ^ 64 - 1)
unfolding stoull signed_number unsigned_number digits text_eq
stoull_test = refl

stoi_test : stoi (codes " -12x") ≡ answer (negsuc 11)
unfolding stoi signed_number unsigned_number digits text_eq
stoi_test = refl

-- A trigger on deletions whose body inserts is said to be one on insertions.
trigger_event_test :
    trigger_event (codes "create trigger t after delete on u begin insert into log values (1); end")
    ≡ codes "INSERT"
unfolding trigger_event
trigger_event_test = refl

-- The two rows of an index on two columns.
abbrev index_row : Text → Row
index_row column =
    some (codes "t")
    ∷ some (codes "0")
    ∷ some (codes "PRIMARY")
    ∷ none
    ∷ some column
    ∷ none
    ∷ some (codes "7")
    ∷ []

abbrev index_server : Server
index_server sql = some (index_row (codes "a") ∷ index_row (codes "b") ∷ [])

get_indexes_test :
    get_indexes index_server (codes "shop") (codes "t")
    ≡ answer (
        record {
          name = codes "PRIMARY";
          unique = true;
          primary = true;
          columns = codes "a" ∷ codes "b" ∷ [];
          type = codes "BTREE";
          comment = [];
          cardinality = 7;
        }
        ∷ [])
unfolding get_indexes stoull signed_number unsigned_number digits text_eq
get_indexes_test = refl
