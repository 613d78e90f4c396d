-- ===== src/Csv/Line.antt =====
-- `splitCSVLine` of src/FormatConverter.cpp.
use sql_fuse.Base.{Bool, List, Text, [], false, true, ◌++◌, ◌==◌, ◌∷◌}
use sql_fuse.Csv.Types.{CsvOptions}

-- The loop, over the text that is left; `fields`, `current` and `in_quotes` are its variables.
unfoldable pub split_loop : CsvOptions → Text → List Text → Text → Bool → List Text
split_loop o [] fields current in_quotes = fields ++ current ∷ []
split_loop o (c ∷ line) fields current false = elim (c == o.quote) [
  | true ↦ split_loop o line fields current true
  | false ↦ elim (c == o.delimiter) [
    | true ↦ split_loop o line (fields ++ current ∷ []) [] false
    | false ↦ split_loop o line fields (current ++ c ∷ []) false
  ]
]
split_loop o (c ∷ []) fields current true = elim (c == o.quote) [
  | true ↦ split_loop o [] fields current false
  | false ↦ split_loop o [] fields (current ++ c ∷ []) true
]
split_loop o (c ∷ d ∷ line) fields current true = elim (c == o.quote) [
  | true ↦ elim (d == o.quote) [
    | true ↦ split_loop o line fields (current ++ o.quote ∷ []) true
    | false ↦ split_loop o (d ∷ line) fields current false
  ]
  | false ↦ split_loop o (d ∷ line) fields (current ++ c ∷ []) true
]

unfoldable pub split_csv_line : CsvOptions → Text → List Text
unfolding split_loop
split_csv_line o line = split_loop o line [] [] false
