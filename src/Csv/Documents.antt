-- ===== src/Csv/Documents.antt =====
-- `parseCSV` after `toCSV` (src/FormatConverter.cpp).
use sql_fuse.Base.{
  All, Lacks, List, Text, [], ap, append_assoc, arith, false, inl, is_empty, map, refl, some, true,
  ◌++◌, ◌∙◌, ◌∷◌, ◌≡◌, ◌≢◌,
}
use sql_fuse.Csv.Types.{CsvOptions, SqlValue, default_options}
use sql_fuse.Csv.Write.{field_text, row_line, header_line, rows_text, to_csv}
use sql_fuse.Csv.Read.{get_lines, strip_return, zip_row, parse_lines, parse_csv}
use sql_fuse.Csv.Fields.{split_csv_line-row_line}
use sql_fuse.Csv.Ends.{feed, IsMark, IsEnding, row_line-Lacks, row_line-EndsWell, get_lines-line}

-- Options under which a document can be read back.
pub record IsReadable (o : CsvOptions) : Type 0 where
  pub apart : o.delimiter ≢ o.quote
  pub delimiter_mark : IsMark o.delimiter
  pub quote_mark : IsMark o.quote
  pub ending : IsEnding o.line_ending
  pub header : o.include_header ≡ true

-- The default options are such.
pub default-IsReadable : IsReadable default_options
default-IsReadable = record {
  apart = λ e. ground arith;
  delimiter_mark = ((λ e. ground arith), (λ e. ground arith));
  quote_mark = ((λ e. ground arith), (λ e. ground arith));
  ending = inl refl;
  header = refl;
}

-- A row whose line is not empty and whose values hold no line feed.
abbrev pub IsWritable : CsvOptions → List SqlValue → Type 0
IsWritable o row = (row_line o row ≢ []) × All (λ v. Lacks feed (field_text v)) row

module _ (o : CsvOptions) (r : IsReadable o) where
  line-read :
      (row : List SqlValue) (t : Text)
      → IsWritable o row
      → (raw : Text) × (get_lines (row_line o row ++ (o.line_ending ++ t)) []
          ≡ raw ∷ get_lines t [])
        × (strip_return raw ≡ row_line o row)
  line-read row t (n, h) =
      get_lines-line o.line_ending (row_line o row) t r.ending
        (row_line-Lacks o r.delimiter_mark r.quote_mark row h)
        (row_line-EndsWell o r.delimiter_mark r.quote_mark row)

  row-ne-nil : (row : List SqlValue) → row_line o row ≢ [] → row ≢ []
  unfolding row_line
  row-ne-nil [] n = absurd (n refl)
  row-ne-nil (v ∷ row) n = λ e. ground arith

  is_empty-ne : (s : Text) → s ≢ [] → is_empty s ≡ false
  is_empty-ne [] n = absurd (n refl)
  is_empty-ne (c ∷ s) n = refl

  parse_lines-row :
      (h : Text) (headers : List Text) (raw : Text) (lines : List Text) (row : List SqlValue)
      → strip_return raw ≡ row_line o row
      → row_line o row ≢ []
      → parse_lines o (h ∷ headers) false (raw ∷ lines)
        ≡ zip_row (h ∷ headers) (map field_text row) ∷ parse_lines o (h ∷ headers) false lines
  unfolding parse_lines
  parse_lines-row h headers raw lines row e n =
      rw
        (
          e,
          is_empty-ne (row_line o row) n,
          split_csv_line-row_line o r.apart row (row-ne-nil row n),
        )
        refl

  parse_lines-header :
      (columns : List Text) (raw : Text) (lines : List Text)
      → strip_return raw ≡ header_line o columns
      → header_line o columns ≢ []
      → parse_lines o [] true (raw ∷ lines)
        ≡ parse_lines o (map field_text (map some columns)) false lines
  unfolding parse_lines header_line
  parse_lines-header columns raw lines e n =
      rw (e, is_empty-ne (header_line o columns) n)
        (simp r.header (
          rw
            (split_csv_line-row_line o r.apart (map some columns) (row-ne-nil (map some columns) n))
            refl))

  to_csv-header :
      (columns : List Text) (rows : List (List SqlValue))
      → to_csv o columns rows ≡ header_line o columns ++ (o.line_ending ++ rows_text o rows)
  unfolding to_csv
  to_csv-header columns rows =
      simp r.header (append_assoc (header_line o columns) o.line_ending (rows_text o rows))

  parse_lines-rows_text :
      (h : Text) (headers : List Text) (rows : List (List SqlValue))
      → All (IsWritable o) rows
      → parse_lines o (h ∷ headers) false (get_lines (rows_text o rows) [])
        ≡ map (λ row. zip_row (h ∷ headers) (map field_text row)) rows
  unfolding rows_text
  parse_lines-rows_text h headers [] w = unfold get_lines parse_lines in refl
  parse_lines-rows_text h headers (row ∷ rows) (w, ws) =
      let (raw, e, back) = line-read row (rows_text o rows) w in
      rw e (
        parse_lines-row h headers raw _ row back w.0
        ∙ ap (◌∷◌ (zip_row (h ∷ headers) (map field_text row)))
            (parse_lines-rows_text h headers rows ws))

  map-field_text : (columns : List Text) → map field_text (map some columns) ≡ columns
  map-field_text [] = refl
  map-field_text (h ∷ columns) = ap (◌∷◌ h) (map-field_text columns)

  -- With options under which a document can be read back, parsing a written document gives its
  -- rows back, each as the map from the columns to the values, where an empty value and a null
  -- are both read as null. The columns and every row must have a line that is not empty and
  -- values without line feeds.
  pub parse_csv-to_csv :
      (h : Text) (columns : List Text) (rows : List (List SqlValue))
      → IsWritable o (map some (h ∷ columns))
      → All (IsWritable o) rows
      → parse_csv o (to_csv o (h ∷ columns) rows)
        ≡ map (λ row. zip_row (h ∷ columns) (map field_text row)) rows
  unfolding parse_csv header_line
  parse_csv-to_csv h columns rows w ws =
      let (raw, e, back) = line-read (map some (h ∷ columns)) (rows_text o rows) w in
      ap (λ (s : Text). parse_lines o [] true (get_lines s [])) (to_csv-header (h ∷ columns) rows)
      ∙ (ap (parse_lines o [] true) e
          ∙ (parse_lines-header (h ∷ columns) raw _ back w.0
              ∙ rw (map-field_text (h ∷ columns)) (parse_lines-rows_text h columns rows ws)))
