-- ===== src/Csv/Types.antt =====
-- `CSVOptions`, `SqlValue` and `RowData` of include/FormatConverter.hpp.
use sql_fuse.Base.{
  Bool, List, Option, Text, [], codes, false, if◌then◌else◌, ltb, text_eq, true, ℕ, ◌==◌, ◌∷◌,
}

pub record CsvOptions : Type 0 where
  pub delimiter : ℕ
  pub quote : ℕ
  pub escape : ℕ
  pub line_ending : Text
  pub include_header : Bool
  pub quote_all : Bool

abbrev pub default_options : CsvOptions
default_options = record {
  delimiter = b',';
  quote = b'"';
  escape = b'\\';
  line_ending = codes "\n";
  include_header = true;
  quote_all = false;
}

-- A value that may be null.
abbrev pub SqlValue : Type 0
SqlValue = Option Text

-- `std::map<std::string, SqlValue>`: the keys ascend.
abbrev pub RowData : Type 0
RowData = List (Text × SqlValue)

-- `a < b` on strings, byte by byte.
unfoldable pub text_lt : Text → Text → Bool
text_lt s [] = false
text_lt [] (b ∷ t) = true
text_lt (a ∷ s) (b ∷ t) = if a == b then text_lt s t else ltb a b

-- `row[key] = value`.
unfoldable pub assign : Text → SqlValue → RowData → RowData
unfolding text_eq text_lt
assign key value [] = (key, value) ∷ []
assign key value ((k, v) ∷ row) =
    if text_eq k key
    then (k, value) ∷ row
    else if text_lt key k
    then (key, value) ∷ (k, v) ∷ row
    else (k, v) ∷ assign key value row
