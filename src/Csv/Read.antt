-- ===== src/Csv/Read.antt =====
-- Both `parseCSV`s of src/FormatConverter.cpp.
use sql_fuse.Base.{
  Bool, List, Text, [], codes, false, if◌then◌else◌, is_empty, none, not, pop_back, some, to_string,
  true, ℕ, ◌&&◌, ◌++◌, ◌+◌, ◌==◌, ◌∷◌,
}
use sql_fuse.Csv.Types.{CsvOptions, SqlValue, RowData, assign}
use sql_fuse.Csv.Line.{split_csv_line}

-- `std::getline` until it fails: the text after the last line feed counts if it is not empty.
unfoldable pub get_lines : Text → Text → List Text
get_lines [] current = if is_empty current then [] else current ∷ []
get_lines (c ∷ s) current = elim (c == b'\n') [
  | true ↦ current ∷ get_lines s []
  | false ↦ get_lines s (current ++ c ∷ [])
]

-- `if (!line.empty() && line.back() == '\r') line.pop_back();`.
unfoldable pub strip_return : Text → Text
strip_return line = elim (pop_back line) [
  | none ↦ line
  | some (rest, last) ↦ if last == b'\r' then rest else line
]

-- An empty field is read as null.
unfoldable pub field_value : Text → SqlValue
field_value [] = none
field_value (c ∷ s) = some (c ∷ s)

-- The loop over the headers and the fields, up to the shorter.
unfoldable pub zip_loop : List Text → List Text → RowData → RowData
unfolding field_value assign
zip_loop [] fields row = row
zip_loop (h ∷ headers) [] row = row
zip_loop (h ∷ headers) (f ∷ fields) row = zip_loop headers fields (assign h (field_value f) row)

unfoldable pub zip_row : List Text → List Text → RowData
unfolding zip_loop
zip_row headers fields = zip_loop headers fields []

-- The headers `col0`, `col1` and so on.
number_headers : ℕ → List Text → List Text
number_headers i [] = []
number_headers i (f ∷ fields) = (codes "col" ++ to_string i) ∷ number_headers (i + 1) fields

-- The loop; `headers` and `first_line` are its variables.
unfoldable pub parse_lines : CsvOptions → List Text → Bool → List Text → List RowData
unfolding zip_row number_headers
parse_lines o headers first_line [] = []
parse_lines o headers first_line (raw ∷ lines) =
    let line = strip_return raw in
    let fields = split_csv_line o line in
    let named = if is_empty headers then number_headers 0 fields else headers in
    let skipped = parse_lines o headers first_line lines in
    let headed = parse_lines o fields false lines in
    let rows =
      zip_row named fields ∷ parse_lines o named (first_line && not (is_empty headers)) lines in
    if is_empty line then skipped else if first_line && o.include_header then headed else rows

unfoldable pub parse_csv : CsvOptions → Text → List RowData
unfolding get_lines parse_lines
parse_csv o content = parse_lines o [] true (get_lines content [])

-- With the columns given.
parse_rows : CsvOptions → List Text → List Text → List RowData
unfolding zip_row
parse_rows o columns [] = []
parse_rows o columns (raw ∷ lines) =
    let line = strip_return raw in
    let rest = parse_rows o columns lines in
    if is_empty line then rest else zip_row columns (split_csv_line o line) ∷ rest

unfoldable pub parse_csv_columns : CsvOptions → List Text → Text → List RowData
unfolding get_lines parse_rows
parse_csv_columns o columns content = parse_rows o columns (get_lines content [])
