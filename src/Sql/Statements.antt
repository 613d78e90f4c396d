-- ===== src/Sql/Statements.antt =====
-- `buildInsert`, `buildUpdate` and `buildDelete`, whose bodies are the same in the four classes but
-- for the functions that escape.
use sql_fuse.Base.{
  Bool, Text, [], codes, false, if◌then◌else◌, none, some, text_eq, true, ◌++◌, ◌∷◌,
}
use sql_fuse.Csv.Types.{SqlValue, RowData}

-- `escapeIdentifier` and `escapeSQL` of a class.
pub record Escaping : Type 0 where
  pub escape_identifier : Text → Text
  pub escape_sql : Text → Text

-- A text between quotes, escaped or not.
unfoldable pub literal : Escaping → Bool → Text → Text
literal e escape value = codes "'" ++ ((if escape then e.escape_sql value else value) ++ codes "'")

unfoldable pub value_text : Escaping → Bool → SqlValue → Text
unfolding literal
value_text e escape none = codes "NULL"
value_text e escape (some value) = literal e escape value

abbrev pub separator : Bool → Text
separator first = if first then [] else codes ", "

-- The loop of `buildInsert`: `sql` and `values` are its streams.
unfoldable pub insert_loop : Escaping → Bool → Bool → RowData → Text → Text → Text × Text
unfolding value_text
insert_loop e escape first [] sql values = (sql, values)
insert_loop e escape first ((col, val) ∷ row) sql values =
    insert_loop e escape false row (sql ++ (separator first ++ e.escape_identifier col))
      (values ++ (separator first ++ value_text e escape val))

unfoldable pub build_insert : Escaping → Text → RowData → Bool → Text
unfolding insert_loop
build_insert e table [] escape = []
build_insert e table ((col, val) ∷ row) escape =
    let (sql, values) =
      insert_loop e escape true ((col, val) ∷ row)
        (codes "INSERT INTO " ++ (e.escape_identifier table ++ codes " (")) (codes " VALUES (") in
    sql ++ (codes ")" ++ (values ++ codes ")"))

-- The loop of `buildUpdate`.
unfoldable pub update_loop : Escaping → Bool → Text → Bool → RowData → Text
unfolding value_text
update_loop e escape key first [] = []
update_loop e escape key first ((col, val) ∷ row) =
    let rest = update_loop e escape key false row in
    let same = update_loop e escape key first row in
    if text_eq col key
    then same
    else separator first
      ++ (e.escape_identifier col ++ (codes " = " ++ (value_text e escape val ++ rest)))

unfoldable pub build_update : Escaping → Text → RowData → Text → Text → Bool → Text
unfolding update_loop literal
build_update e table [] key value escape = []
build_update e table ((col, val) ∷ row) key value escape =
    codes "UPDATE "
    ++ (e.escape_identifier table
        ++ (codes " SET "
            ++ (update_loop e escape key true ((col, val) ∷ row)
                ++ (codes " WHERE "
                    ++ (e.escape_identifier key ++ (codes " = " ++ literal e escape value))))))

unfoldable pub build_delete : Escaping → Text → Text → Text → Bool → Text
unfolding literal
build_delete e table key value escape =
    codes "DELETE FROM "
    ++ (e.escape_identifier table
        ++ (codes " WHERE "
            ++ (e.escape_identifier key ++ (codes " = " ++ literal e escape value))))
