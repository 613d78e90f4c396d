-- ===== src/Csv/Write.antt =====
-- `escapeCSVField` and `toCSV` of src/FormatConverter.cpp.
use sql_fuse.Base.{
  Bool, List, Text, [], false, if◌then◌else◌, map, none, some, ℕ, ◌++◌, ◌==◌, ◌||◌, ◌∷◌,
}
use sql_fuse.Csv.Types.{CsvOptions, SqlValue}

unfoldable pub is_special : CsvOptions → ℕ → Bool
is_special o c = c == o.delimiter || (c == o.quote || (c == b'\n' || c == b'\r'))

unfoldable pub has_special : CsvOptions → Text → Bool
unfolding is_special
has_special o [] = false
has_special o (c ∷ field) = is_special o c || has_special o field

-- The body of a quoted field: a quote is doubled.
unfoldable pub doubled : ℕ → Text → Text
doubled quote [] = []
doubled quote (c ∷ field) = (if c == quote then quote ∷ c ∷ [] else c ∷ []) ++ doubled quote field

unfoldable pub needs_quoting : CsvOptions → Text → Bool
unfolding has_special
needs_quoting o field = o.quote_all || has_special o field

unfoldable pub escape_csv_field : CsvOptions → Text → Text
unfolding needs_quoting doubled
escape_csv_field o field =
    if needs_quoting o field then o.quote ∷ (doubled o.quote field ++ o.quote ∷ []) else field

-- The loops over the columns and over the values of a row; a null writes nothing.
abbrev pub field_text : SqlValue → Text
field_text none = []
field_text (some s) = s

unfoldable pub cell : CsvOptions → SqlValue → Text
unfolding escape_csv_field
cell o none = []
cell o (some s) = escape_csv_field o s

unfoldable pub more_cells : CsvOptions → List SqlValue → Text
unfolding cell
more_cells o [] = []
more_cells o (v ∷ row) = o.delimiter ∷ (cell o v ++ more_cells o row)

unfoldable pub row_line : CsvOptions → List SqlValue → Text
unfolding more_cells
row_line o [] = []
row_line o (v ∷ row) = cell o v ++ more_cells o row

unfoldable pub header_line : CsvOptions → List Text → Text
unfolding row_line
header_line o columns = row_line o (map some columns)

unfoldable pub rows_text : CsvOptions → List (List SqlValue) → Text
unfolding row_line
rows_text o [] = []
rows_text o (row ∷ rows) = row_line o row ++ (o.line_ending ++ rows_text o rows)

unfoldable pub to_csv : CsvOptions → List Text → List (List SqlValue) → Text
unfolding header_line rows_text
to_csv o columns rows =
    (if o.include_header then header_line o columns ++ o.line_ending else []) ++ rows_text o rows
