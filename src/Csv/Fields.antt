-- ===== src/Csv/Fields.antt =====
-- `splitCSVLine` undoes `escapeCSVField` and the delimiters (src/FormatConverter.cpp), for any
-- delimiter and quote that differ.
use sql_fuse.Base.{
  ==-eq, ==-refl, Bool-cases, List, Text, [], append-nil, append_assoc, arith, false, inl, inr, map,
  none, refl, some, true, ℕ, ◌++◌, ◌==◌, ◌∙◌, ◌∷◌, ◌≡◌, ◌≢◌,
}
use sql_fuse.Csv.Types.{CsvOptions, SqlValue}
use sql_fuse.Csv.Write.{
  is_special, has_special, doubled, needs_quoting, escape_csv_field, field_text, cell, more_cells,
  row_line,
}
use sql_fuse.Csv.Line.{split_loop, split_csv_line}

-- A text that does not begin with a quote.
abbrev IsClosed : ℕ → Text → Type 0
IsClosed quote [] = Unit
IsClosed quote (c ∷ s) = c ≢ quote

module _ (o : CsvOptions) (fields : List Text) where
  split_loop-inside :
      (c : ℕ) (t current : Text)
      → c ≢ o.quote
      → split_loop o (c ∷ t) fields current true ≡ split_loop o t fields (current ++ c ∷ []) true
  unfolding split_loop
  split_loop-inside c [] current n = ground arith
  split_loop-inside c (d ∷ t) current n = ground arith

  split_loop-escaped :
      (t current : Text)
      → split_loop o (o.quote ∷ o.quote ∷ t) fields current true
        ≡ split_loop o t fields (current ++ o.quote ∷ []) true
  unfolding split_loop
  split_loop-escaped t current = ground arith

  split_loop-close :
      (t current : Text)
      → IsClosed o.quote t
      → split_loop o (o.quote ∷ t) fields current true ≡ split_loop o t fields current false
  unfolding split_loop
  split_loop-close [] current n = ground arith
  split_loop-close (d ∷ t) current n = ground arith

  split_loop-doubled :
      (field t current : Text)
      → IsClosed o.quote t
      → split_loop o (doubled o.quote field ++ o.quote ∷ t) fields current true
        ≡ split_loop o t fields (current ++ field) false
  unfolding doubled
  split_loop-doubled [] t current n = rw append-nil (split_loop-close t current n)
  split_loop-doubled (c ∷ field) t current n = elim (Bool-cases (c == o.quote)) [
    | inl e ↦ rw (==-eq c o.quote e) (
        rw (==-refl o.quote) (
          split_loop-escaped _ current
          ∙ (split_loop-doubled field t (current ++ o.quote ∷ []) n ∙ rw append_assoc refl)))
    | inr e ↦ rw e (
        split_loop-inside c _ current (λ h. ground (arith, h))
        ∙ (split_loop-doubled field t (current ++ c ∷ []) n ∙ rw append_assoc refl))
  ]

  split_loop-plain :
      (field t current : Text)
      → has_special o field ≡ false
      → split_loop o (field ++ t) fields current false
        ≡ split_loop o t fields (current ++ field) false
  unfolding split_loop has_special is_special
  split_loop-plain [] t current n = rw append-nil
  split_loop-plain (c ∷ field) t current n =
      ground
        (arith, split_loop-plain field t (current ++ c ∷ []), append_assoc current (c ∷ []) field)

  split_loop-open :
      (t : Text) → split_loop o (o.quote ∷ t) fields [] false ≡ split_loop o t fields [] true
  unfolding split_loop
  split_loop-open t = ground arith

  split_loop-end : (current : Text) → split_loop o [] fields current false ≡ fields ++ current ∷ []
  unfolding split_loop
  split_loop-end current = refl

  -- A field as it was written is read back whole, if no quote follows.
  split_loop-field :
      (field t : Text)
      → IsClosed o.quote t
      → split_loop o (escape_csv_field o field ++ t) fields [] false
        ≡ split_loop o t fields field false
  unfolding escape_csv_field
  split_loop-field field t n = elim (Bool-cases (needs_quoting o field)) [
    | inl e ↦ rw (e, append_assoc) (split_loop-open _ ∙ split_loop-doubled field t [] n)
    | inr e ↦ rw e (split_loop-plain field t [] (ground arith))
  ]

  split_loop-cell :
      (v : SqlValue) (t : Text)
      → IsClosed o.quote t
      → split_loop o (cell o v ++ t) fields [] false ≡ split_loop o t fields (field_text v) false
  unfolding cell
  split_loop-cell none t n = refl
  split_loop-cell (some s) t n = split_loop-field s t n

module _ (o : CsvOptions) (apart : o.delimiter ≢ o.quote) where
  more_cells-IsClosed : (row : List SqlValue) → IsClosed o.quote (more_cells o row)
  unfolding more_cells
  more_cells-IsClosed [] = tt
  more_cells-IsClosed (v ∷ row) = apart

  split_loop-delimiter :
      (fields : List Text) (current t : Text)
      → split_loop o (o.delimiter ∷ t) fields current false
        ≡ split_loop o t (fields ++ current ∷ []) [] false
  unfolding split_loop
  split_loop-delimiter fields current t = ground arith

  split_loop-more_cells :
      (row : List SqlValue) (fields : List Text) (current : Text)
      → split_loop o (more_cells o row) fields current false
        ≡ fields ++ current ∷ map field_text row
  unfolding more_cells
  split_loop-more_cells [] fields current = split_loop-end o fields current
  split_loop-more_cells (v ∷ row) fields current =
      unfold more_cells in
      split_loop-delimiter fields current (cell o v ++ more_cells o row)
      ∙ (split_loop-cell o (fields ++ current ∷ []) v (more_cells o row) (more_cells-IsClosed row)
          ∙ (split_loop-more_cells row (fields ++ current ∷ []) (field_text v)
              ∙ rw append_assoc refl))

  -- With a delimiter that is not the quote, splitting the line of a row with at least one value
  -- gives its fields back, in order, a null as the empty text; quotes, delimiters and line
  -- breaks in the values do no harm.
  pub split_csv_line-row_line :
      (row : List SqlValue) → row ≢ [] → split_csv_line o (row_line o row) ≡ map field_text row
  unfolding split_csv_line row_line
  split_csv_line-row_line [] h = absurd (h refl)
  split_csv_line-row_line (v ∷ row) h =
      split_loop-cell o [] v (more_cells o row) (more_cells-IsClosed row)
      ∙ split_loop-more_cells row [] (field_text v)
