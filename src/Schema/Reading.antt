-- ===== src/Schema/Reading.antt =====
-- The statements of the four schema managers, as their databases read them.
use sql_fuse.Base.{some, ◌≡◌}
use sql_fuse.Sql.Lexer.{backslashes, standard, outside, lex}
use sql_fuse.Sql.Pieces.{tokens_of}
use sql_fuse.Schema.Mysql
use sql_fuse.Schema.Sqlite
use sql_fuse.Schema.Postgresql
use sql_fuse.Schema.Oracle

-- Every statement that the four schema managers send, whatever the names in it, is read by its
-- database as it is meant: each name and each value is one token, the names of Oracle those
-- between their dots, and the rest is the words of the statement. The pragmas of fixed names are
-- left out.
pub lex-sql_of :
    (m : Mysql.Statements.Statement) (s : Sqlite.Statements.Statement)
    (p : Postgresql.Statements.Statement) (o : Oracle.Statements.Statement)
    → (lex backslashes outside (Mysql.Statements.sql_of m)
        ≡ some (tokens_of Mysql.Reading.reads (Mysql.Intended.pieces_of m)))
      × (lex standard outside (Sqlite.Statements.sql_of s)
          ≡ some (tokens_of Sqlite.Reading.reads (Sqlite.Intended.pieces_of s)))
      × (lex standard outside (Postgresql.Statements.sql_of p)
          ≡ some (tokens_of Postgresql.Reading.reads (Postgresql.Intended.pieces_of p)))
      × (lex standard outside (Oracle.Statements.sql_of o)
          ≡ some (tokens_of Oracle.Reading.reads (Oracle.Intended.pieces_of o)))
lex-sql_of m s p o = (
  Mysql.Reading.lex-mysql_sql m,
  Sqlite.Reading.lex-sqlite_sql s,
  Postgresql.Reading.lex-postgresql_sql p,
  Oracle.Reading.lex-oracle_sql o,
)
