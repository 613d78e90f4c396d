-- ===== src/Csv/Tests.antt =====
-- The theorems on src/FormatConverter.cpp at a small document.
use sql_fuse.Base.{List, Text, [], codes, lacks_sound, map, none, pop_back, refl, some, ◌∷◌, ◌≡◌}
use sql_fuse.Csv.Types.{default_options, SqlValue}
use sql_fuse.Csv.Write.{field_text, row_line, to_csv}
use sql_fuse.Csv.Read.{zip_row, parse_csv, strip_return}
use sql_fuse.Csv.Documents.{IsWritable, default-IsReadable, parse_csv-to_csv}

abbrev row : List SqlValue
row = some (codes "a,\"b") ∷ none ∷ []

abbrev names : List Text
names = codes "x" ∷ codes "y" ∷ []

row-IsWritable : IsWritable default_options row
unfolding row_line
row-IsWritable = ((λ e. cc), (lacks_sound b'\n' (codes "a,\"b") refl, (tt, tt)))

names-IsWritable : IsWritable default_options (map some names)
unfolding row_line
names-IsWritable =
    ((λ e. cc), (lacks_sound b'\n' (codes "x") refl, (lacks_sound b'\n' (codes "y") refl, tt)))

parse_csv-to_csv_example :
    parse_csv default_options (to_csv default_options names (row ∷ []))
    ≡ map (λ row. zip_row names (map field_text row)) (row ∷ [])
parse_csv-to_csv_example =
    parse_csv-to_csv default_options default-IsReadable (codes "x") (codes "y" ∷ []) (row ∷ [])
      names-IsWritable (row-IsWritable, tt)

-- A document with one column loses a row whose value is null.
parse_lost :
    parse_csv default_options (to_csv default_options (codes "x" ∷ []) ((none ∷ []) ∷ [])) ≡ []
unfolding parse_csv to_csv strip_return pop_back
parse_lost = refl
