-- ===== src/Schema/Server.antt =====
-- What a database answers to a statement, and how its rows are read.
use sql_fuse.Base.{
  Bool, List, Option, Text, [], false, get_or, if◌then◌else◌, insert, is_empty, leb, ltb, negsuc,
  none, pos, some, text_eq, true, word, ℕ, ℤ, ◌%◌, ◌&&◌, ◌*◌, ◌+◌, ◌-◌, ◌==◌, ◌^◌, ◌||◌, ◌∷◌,
}
use sql_fuse.Fs.Types.{Query, answer, throws}

infixl 5 ◌>>=◌
abbrev pub ◌>>=◌ {ℓ κ} : {A : Type ℓ} {B : Type κ} → Query A → (A → Query B) → Query B
answer a >>= f = f a
throws >>= f = throws

-- A row of texts, where a column may be null.
abbrev pub Row : Type 0
Row = List (Option Text)

-- The rows that a statement gives, if it does not fail.
abbrev pub Server : Type 0
Server = Text → Option (List Row)

-- A query whose failure is thrown.
abbrev pub ask : Server → Text → Query (List Row)
ask server sql = elim (server sql) [ none ↦ throws | some rows ↦ answer rows ]

abbrev pub cell : Row → ℕ → Option Text
cell row i = get_or row i none

-- `row[i] ? row[i] : ""`, with another text for the empty one.
abbrev pub text_or : Text → Option Text → Text
text_or d none = d
text_or d (some text) = text

abbrev pub text_at : Row → ℕ → Text
text_at row i = text_or [] (cell row i)

-- `row[i] && std::string(row[i]) == expected`.
abbrev pub is_at : Text → Row → ℕ → Bool
is_at expected row i = elim (cell row i) [ none ↦ false | some text ↦ text_eq text expected ]

-- The loop that collects the texts of a column, without the nulls.
abbrev pub names_at : ℕ → List Row → List Text
names_at i [] = []
names_at i (row ∷ rows) = elim (cell row i) [
  | none ↦ names_at i rows
  | some name ↦ name ∷ names_at i rows
]

-- `std::find(...) != end()`.
abbrev pub contains : Text → List Text → Bool
contains name [] = false
contains name (n ∷ names) = text_eq n name || contains name names

-- `std::stoull` and `std::stoi`: white space, a sign, and digits up to the first other byte. Each
-- throws where there is no digit, or the number does not fit.
abbrev pub is_digit : ℕ → Bool
is_digit c = leb b'0' c && leb c b'9'

abbrev pub is_space : ℕ → Bool
is_space c = c == b' ' || (leb 9 c && leb c 13)

unfoldable pub digits : ℕ → Text → ℕ
digits n [] = n
digits n (c ∷ s) = let rest = digits (n * 10 + (c - b'0')) s in if is_digit c then rest else n

unfoldable pub unsigned_number : Text → Option ℕ
unfolding digits
unsigned_number [] = none
unsigned_number (c ∷ s) = if is_digit c then some (digits 0 (c ∷ s)) else none

-- Whether there is a minus, and the number.
unfoldable pub signed_number : Text → Option (Bool × ℕ)
unfolding unsigned_number
signed_number [] = none
signed_number (c ∷ s) =
    let rest = signed_number s in
    if is_space c
    then rest
    else if c == b'-'
    then elim (unsigned_number s) [ none ↦ none | some n ↦ some (true, n) ]
    else elim (unsigned_number (if c == b'+' then s else c ∷ s)) [
      | none ↦ none
      | some n ↦ some (false, n)
    ]

unfoldable pub stoull : Text → Query ℕ
unfolding signed_number
stoull s = elim (signed_number s) [
  | none ↦ throws
  | some (minus, n) ↦ if ltb n word then answer (if minus then (word - n) % word else n) else throws
]

unfoldable pub stoi : Text → Query ℤ
unfolding signed_number
stoi s = elim (signed_number s) [
  | none ↦ throws
  | some (minus, n) ↦
      if minus
      then (if leb n (2 ^ 31) then answer (if n == 0 then pos 0 else negsuc (n - 1)) else throws)
      else (if ltb n (2 ^ 31) then answer (pos n) else throws)
]

-- `row[i] ? std::stoull(row[i]) : 0`.
abbrev pub number_at : Row → ℕ → Query ℕ
number_at row i = elim (cell row i) [ none ↦ answer 0 | some text ↦ stoull text ]

abbrev pub int_at : Row → ℕ → Query ℤ
int_at row i = elim (cell row i) [ none ↦ answer (pos 0) | some text ↦ stoi text ]

-- A loop over the rows whose body may throw.
abbrev pub each_row {ℓ} : {A : Type ℓ} → (Row → Query A) → List Row → Query (List A)
each_row f [] = answer []
each_row f (row ∷ rows) = f row >>= λ a. each_row f rows >>= λ rest. answer (a ∷ rest)

-- What is made of the first row of an answer, if there is one.
abbrev pub with_first {ℓ} : {A : Type ℓ} → (Row → Query A) → List Row → Query (Option A)
with_first f [] = answer none
with_first f (row ∷ rows) = do a ← f row; answer (some a)

-- The rows of an answer, none where the statement fails.
abbrev pub rows_or_none {ℓ} : {A : Type ℓ} → Option (List A) → List A
rows_or_none none = []
rows_or_none (some rows) = rows

-- `vars[name] = value ? value : ""` for each row with a name.
unfoldable pub variables_of : List Row → List (Text × Text) → List (Text × Text)
variables_of [] vars = vars
variables_of (row ∷ rows) vars = elim (cell row 0) [
  | none ↦ variables_of rows vars
  | some name ↦ variables_of rows (insert name (text_at row 1) vars)
]

-- The number in the first column of the first row, or nought.
abbrev pub first_number : List Row → Query ℕ
first_number [] = answer 0
first_number (row ∷ rows) = number_at row 0

-- `text.find(part) != std::string::npos`.
abbrev pub starts : Text → Text → Bool
starts [] s = true
starts (a ∷ part) [] = false
starts (a ∷ part) (b ∷ s) = a == b && starts part s

unfoldable pub has_part : Text → Text → Bool
has_part part [] = is_empty part
has_part part (c ∷ s) = starts part (c ∷ s) || has_part part s
