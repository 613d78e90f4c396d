-- ===== src/Sql/Lexer.antt =====
-- How a database reads the quoted identifiers and the string literals of a statement: the lexical
-- rules of standard SQL, and those of MySQL, where a backslash escapes and identifiers stand between
-- backticks.
use sql_fuse.Base.{
  Bool, List, Option, Text, [], false, if◌then◌else◌, none, some, ℕ, ◌++◌, ◌==◌, ◌∷◌,
}

pub data Lexicon : Type 0 where
  standard backslashes : Lexicon

abbrev pub name_quote : Lexicon → ℕ
name_quote standard = b'"'
name_quote backslashes = b'`'

pub data Token : Type 0 where
  symbol : ℕ → Token
  name text : Text → Token

pub data Kind : Type 0 where
  name_kind text_kind : Kind

abbrev pub quote_of : Lexicon → Kind → ℕ
quote_of l name_kind = name_quote l
quote_of l text_kind = b'\''

abbrev pub token_of : Kind → Text → Token
token_of name_kind s = name s
token_of text_kind s = text s

-- Outside of quotes, inside, after a quote that may end the token, and after a backslash.
pub data Mode : Type 0 where
  outside : Mode
  inside ended : Kind → Text → Mode
  escaped : Text → Mode

abbrev pub is_escape : Lexicon → Kind → ℕ → Bool
is_escape standard k c = false
is_escape backslashes name_kind c = false
is_escape backslashes text_kind c = c == b'\\'

-- The byte that a backslash before this one stands for.
abbrev pub unescape : ℕ → ℕ
unescape c =
    if c == b'0'
    then 0
    else if c == b'n'
    then b'\n'
    else if c == b'r'
    then b'\r'
    else if c == b'Z'
    then 0x1a
    else if c == b't'
    then b'\t'
    else if c == b'b'
    then 8
    else c

abbrev pub start : Lexicon → ℕ → Mode × List Token
start l c =
    if c == b'\''
    then (inside text_kind [], [])
    else if c == name_quote l
    then (inside name_kind [], [])
    else (outside, symbol c ∷ [])

abbrev pub step : Lexicon → Mode → ℕ → Mode × List Token
step l outside c = start l c
step l (inside k s) c =
    if c == quote_of l k
    then (ended k s, [])
    else if is_escape l k c
    then (escaped s, [])
    else (inside k (s ++ c ∷ []), [])
step l (ended k s) c =
    if c == quote_of l k
    then (inside k (s ++ c ∷ []), [])
    else ((start l c).0, token_of k s ∷ (start l c).1)
step l (escaped s) c = (inside text_kind (s ++ unescape c ∷ []), [])

abbrev pub prepend : List Token → Option (List Token) → Option (List Token)
prepend ts none = none
prepend ts (some us) = some (ts ++ us)

-- The tokens of a text, where every quote is closed.
unfoldable pub lex : Lexicon → Mode → Text → Option (List Token)
lex l outside [] = some []
lex l (inside k s) [] = none
lex l (ended k s) [] = some (token_of k s ∷ [])
lex l (escaped s) [] = none
lex l m (c ∷ s) = prepend (step l m c).1 (lex l (step l m c).0 s)
