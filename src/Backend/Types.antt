-- ===== src/Backend/Types.antt =====
-- What the write handlers ask of a database, and what they leave behind.
use sql_fuse.Base.{Bool, List, Option, Text, codes, none, some, ℤ, ◌++◌}
use sql_fuse.Csv.Types.{RowData}
use sql_fuse.Router.Types.{ParsedPath}
use sql_fuse.File.Types.{Reply, ok, err, Errno}

-- What a connection has done: the statements that were accepted, and the commits.
pub data Event : Type 0 where
  executed : Text → Event
  committed : Event

-- The error text of a connection after a statement that was refused, and its number.
pub record DbError : Type 0 where
  pub message : Text
  pub number : ℤ

-- A database, by what its connections did before: whether it refuses a statement that changes it, and
-- the rows that a query gives.
pub record Database : Type 0 where
  pub refuses : List Event → Text → Option DbError
  pub selects : List Event → Text → Option (List (List (Option Text)))

-- A value, or the text of an exception.
pub data Attempt {ℓ} (A : Type ℓ) : Type ℓ where
  gives : A → Attempt A
  threw : Text → Attempt A

-- The parsers of JSON, and the primary key of a table, `none` where there is no such table.
pub record Tools : Type 0 where
  pub parse_json : Text → Attempt (List RowData)
  pub parse_json_row : Text → Attempt RowData
  pub primary_key : Text → Text → Attempt (Option Text)

-- What a handler leaves: the history, `m_lastError` and what it returns.
pub record Written : Type 0 where
  pub history : List Event
  pub last_error : Text
  pub reply : Reply (Unit {0})

-- `return -code`, where the code may be 0.
abbrev pub negated : Option Errno → Reply (Unit {0})
negated none = ok tt
negated (some e) = err e

-- What the four classes have of their own: the name in the message, the statements for the rows of a
-- table, the number for an error, and whether they commit.
pub record Dialect : Type 0 where
  pub database_name : Text
  pub insert_row : ParsedPath → RowData → Text
  pub new_row : ParsedPath → RowData → Text
  pub update_row : ParsedPath → RowData → Text → Text
  pub check_row : ParsedPath → Text → Text
  pub error_of : DbError → Reply (Unit {0})
  pub commits : Bool

-- `database + "." + object_name`.
abbrev pub dotted : ParsedPath → Text
dotted path = path.database ++ (codes "." ++ path.object_name)

-- A name between quotes as it is.
unfoldable pub bare : Text → Text
bare name = codes "\"" ++ (name ++ codes "\"")
