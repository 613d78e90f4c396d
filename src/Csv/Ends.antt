-- ===== src/Csv/Ends.antt =====
-- The lines that `toCSV` writes are the lines that `std::getline` reads (src/FormatConverter.cpp):
-- no line feed inside, and no carriage return at the end but that of the line ending.
use sql_fuse.Base.{
  All, All-append, Bool-cases, Lacks, List, Text, [], ap, append-nil, append_assoc, arith, codes,
  false, inl, inr, none, pop_back, pop_back-concat, refl, some, sym, ℕ, ◌++◌, ◌==◌, ◌∙◌, ◌∷◌, ◌≡◌,
  ◌≢◌, ◌⊎◌,
}
use sql_fuse.Csv.Types.{CsvOptions, SqlValue}
use sql_fuse.Csv.Write.{
  is_special, has_special, doubled, needs_quoting, escape_csv_field, field_text, cell, more_cells,
  row_line,
}
use sql_fuse.Csv.Read.{get_lines, strip_return}

abbrev pub feed : ℕ
feed = b'\n'

abbrev pub return : ℕ
return = b'\r'

-- Empty, or with a last byte that is no carriage return.
abbrev pub EndsWell : Text → Type 0
EndsWell s = (s ≡ []) ⊎ ((r : Text) × (c : ℕ) × (s ≡ r ++ c ∷ []) × (c ≢ return))

EndsWell-append : (s t : Text) → EndsWell s → EndsWell t → EndsWell (s ++ t)
EndsWell-append s t a (inr (r, c, e, n)) =
    inr (s ++ r, c, rw e (sym (append_assoc s r (c ∷ []))), n)
EndsWell-append s t a (inl e) = rw (e, append-nil) a

EndsWell-concat : (s : Text) (c : ℕ) → c ≢ return → EndsWell (s ++ c ∷ [])
EndsWell-concat s c n = inr (s, c, refl, n)

pub strip_return-EndsWell : (s : Text) → EndsWell s → strip_return s ≡ s
unfolding strip_return
strip_return-EndsWell s (inl e) = rw e (unfold pop_back in refl)
strip_return-EndsWell s (inr (r, c, e, n)) =
    rw (e, pop_back-concat r c, strip_return) (ground arith)

pub strip_return-return : (s : Text) → strip_return (s ++ return ∷ []) ≡ s
unfolding strip_return
strip_return-return s = rw (pop_back-concat s return, strip_return) refl

pub get_lines-append :
    (line t current : Text)
    → Lacks feed line
    → get_lines (line ++ feed ∷ t) current ≡ (current ++ line) ∷ get_lines t []
unfolding get_lines
get_lines-append [] t current h = rw append-nil
get_lines-append (c ∷ line) t current (n, h) =
    ground
      (arith, get_lines-append line t (current ++ c ∷ []) h, append_assoc current (c ∷ []) line)

-- A delimiter or a quote that no line break contains.
abbrev pub IsMark : ℕ → Type 0
IsMark c = (c ≢ feed) × (c ≢ return)

module _ (o : CsvOptions) (d : IsMark o.delimiter) (q : IsMark o.quote) where
  doubled-Lacks : (field : Text) → Lacks feed field → Lacks feed (doubled o.quote field)
  unfolding doubled
  doubled-Lacks [] h = tt
  doubled-Lacks (c ∷ field) (n, h) = elim (Bool-cases (c == o.quote)) [
    | inl e ↦ rw e (q.0, (n, doubled-Lacks field h))
    | inr e ↦ rw e (n, doubled-Lacks field h)
  ]

  cell-Lacks : (v : SqlValue) → Lacks feed (field_text v) → Lacks feed (cell o v)
  unfolding cell escape_csv_field
  cell-Lacks none h = tt
  cell-Lacks (some s) h = elim (Bool-cases (needs_quoting o s)) [
    | inl e ↦ rw e (q.0, All-append _ (doubled o.quote s) _ (doubled-Lacks s h) (q.0, tt))
    | inr e ↦ rw e h
  ]

  plain-EndsWell : (s : Text) → has_special o s ≡ false → EndsWell s
  unfolding has_special is_special
  plain-EndsWell [] h = inl refl
  plain-EndsWell (c ∷ s) h =
      EndsWell-append (c ∷ []) s (EndsWell-concat [] c (ground arith))
        (plain-EndsWell s (ground arith))

  cell-EndsWell : (v : SqlValue) → EndsWell (cell o v)
  unfolding cell escape_csv_field needs_quoting
  cell-EndsWell none = inl refl
  cell-EndsWell (some s) = elim (Bool-cases (needs_quoting o s)) [
    | inl e ↦ rw e (EndsWell-concat (o.quote ∷ doubled o.quote s) o.quote q.1)
    | inr e ↦ rw e (plain-EndsWell s (ground arith))
  ]

  more_cells-Lacks :
      (row : List SqlValue)
      → All (λ v. Lacks feed (field_text v)) row
      → Lacks feed (more_cells o row)
  unfolding more_cells
  more_cells-Lacks [] h = tt
  more_cells-Lacks (v ∷ row) (a, h) =
      (d.0, All-append _ (cell o v) _ (cell-Lacks v a) (more_cells-Lacks row h))

  more_cells-EndsWell : (row : List SqlValue) → EndsWell (more_cells o row)
  unfolding more_cells
  more_cells-EndsWell [] = inl refl
  more_cells-EndsWell (v ∷ row) =
      EndsWell-append (o.delimiter ∷ []) _ (EndsWell-concat [] o.delimiter d.1)
        (EndsWell-append (cell o v) _ (cell-EndsWell v) (more_cells-EndsWell row))

  pub row_line-Lacks :
      (row : List SqlValue) → All (λ v. Lacks feed (field_text v)) row → Lacks feed (row_line o row)
  unfolding row_line
  row_line-Lacks [] h = tt
  row_line-Lacks (v ∷ row) (a, h) =
      All-append _ (cell o v) _ (cell-Lacks v a) (more_cells-Lacks row h)

  pub row_line-EndsWell : (row : List SqlValue) → EndsWell (row_line o row)
  unfolding row_line
  row_line-EndsWell [] = inl refl
  row_line-EndsWell (v ∷ row) =
      EndsWell-append (cell o v) _ (cell-EndsWell v) (more_cells-EndsWell row)

-- The line endings that `parseCSV` knows.
abbrev pub IsEnding : Text → Type 0
IsEnding e = (e ≡ codes "\n") ⊎ (e ≡ codes "\r\n")

-- The first line that is read from a line, its ending and the rest is that line.
pub get_lines-line :
    (ending line t : Text)
    → IsEnding ending
    → Lacks feed line
    → EndsWell line
    → (raw : Text) × (get_lines (line ++ (ending ++ t)) [] ≡ raw ∷ get_lines t [])
      × (strip_return raw ≡ line)
get_lines-line ending line t (inl e) h w =
    (line, rw e (get_lines-append line t [] h), strip_return-EndsWell line w)
get_lines-line ending line t (inr e) h w = (
  line ++ return ∷ [],
  rw e (
      ap (λ (s : Text). get_lines s []) (sym (append_assoc line (return ∷ []) (feed ∷ t)))
      ∙ get_lines-append (line ++ return ∷ []) t []
          (All-append _ line _ h ((λ x. omega arith), tt))),
  strip_return-return line,
)
