-- ===== src/Sql/Pieces.antt =====
-- A statement as a sequence of words, identifiers and values, as it is written and as it is read.
use sql_fuse.Base.{
  Bool, List, Text, [], arith, codes, false, none, not, refl, some, sym, true, ℕ, ◌&&◌, ◌++◌, ◌==◌,
  ◌∙◌, ◌∷◌, ◌≡◌,
}
use sql_fuse.Csv.Types.{SqlValue}
use sql_fuse.Sql.Statements.{Escaping, literal, value_text}
use sql_fuse.Sql.Lexer.{
  Lexicon, standard, backslashes, Token, symbol, text, name_quote, outside, prepend, lex,
}
use sql_fuse.Sql.Quoting.{prepend-prepend, prepend-nil, Ends}

-- How the database reads what a class has escaped: the tokens of an identifier, and the text of a
-- value.
pub record Reads (l : Lexicon) (e : Escaping) : Type 0 where
  pub names : Text → List Token
  pub texts : Text → Text
  pub lex-escape_identifier :
      (identifier rest : Text)
      → Ends (name_quote l) rest
      → lex l outside (e.escape_identifier identifier ++ rest)
        ≡ prepend (names identifier) (lex l outside rest)
  pub lex-literal :
      (value rest : Text)
      → Ends b'\'' rest
      → lex l outside (literal e true value ++ rest)
        ≡ prepend (text (texts value) ∷ []) (lex l outside rest)

pub data Piece : Type 0 where
  word : Text → Piece
  identifier : Text → Piece
  value : SqlValue → Piece

abbrev pub symbols : Text → List Token
symbols [] = []
symbols (c ∷ s) = symbol c ∷ symbols s

-- No quote of any kind.
abbrev pub is_clean : Text → Bool
is_clean [] = true
is_clean (c ∷ s) = not (c == b'\'') && (not (c == b'"') && (not (c == b'`') && is_clean s))

-- What follows a quoted piece: nothing, or a word that is not empty.
abbrev pub Follows : List Piece → Type 0
Follows [] = Unit
Follows (word (c ∷ s) ∷ ps) = Unit
Follows _ = ⊥

abbrev pub IsSpaced : List Piece → Type 0
IsSpaced [] = Unit
IsSpaced (word s ∷ ps) = (is_clean s ≡ true) × IsSpaced ps
IsSpaced (identifier i ∷ ps) = Follows ps × IsSpaced ps
IsSpaced (value v ∷ ps) = Follows ps × IsSpaced ps

abbrev pub text_of : Escaping → List Piece → Text
text_of e [] = []
text_of e (word s ∷ ps) = s ++ text_of e ps
text_of e (identifier i ∷ ps) = e.escape_identifier i ++ text_of e ps
text_of e (value v ∷ ps) = value_text e true v ++ text_of e ps

is_clean-cons :
    (c : ℕ) (s : Text)
    → is_clean (c ∷ s) ≡ true
    → ((c == b'\'') ≡ false) × ((c == b'"') ≡ false) × ((c == b'`') ≡ false) × (is_clean s ≡ true)
is_clean-cons c s h = (ground arith, ground arith, ground arith, ground arith)

clean-ne : (l : Lexicon) (c : ℕ) (s : Text) → is_clean (c ∷ s) ≡ true → (c == name_quote l) ≡ false
clean-ne standard c s h = (is_clean-cons c s h).1
clean-ne backslashes c s h = (is_clean-cons c s h).2

lex-symbols :
    (l : Lexicon) (s rest : Text)
    → is_clean s ≡ true
    → lex l outside (s ++ rest) ≡ prepend (symbols s) (lex l outside rest)
unfolding lex
lex-symbols l [] rest h = sym (prepend-nil _)
lex-symbols l (c ∷ s) rest h =
    rw ((is_clean-cons c s h).0, clean-ne l c s h)
      (rw (lex-symbols l s rest (is_clean-cons c s h).3) (prepend-prepend (symbol c ∷ []) _ _))

module _ {l : Lexicon} {e : Escaping} (r : Reads l e) where
  abbrev pub value_tokens : SqlValue → List Token
  value_tokens none = symbols (codes "NULL")
  value_tokens (some v) = text (r.texts v) ∷ []

  abbrev pub tokens_of : List Piece → List Token
  tokens_of [] = []
  tokens_of (word s ∷ ps) = symbols s ++ tokens_of ps
  tokens_of (identifier i ∷ ps) = r.names i ++ tokens_of ps
  tokens_of (value v ∷ ps) = value_tokens v ++ tokens_of ps

  Ends-text_of :
      (ps : List Piece)
      → Follows ps
      → IsSpaced ps
      → Ends b'\'' (text_of e ps) × Ends (name_quote l) (text_of e ps)
  Ends-text_of [] f k = (tt, tt)
  Ends-text_of (word [] ∷ ps) f k = absurd f
  Ends-text_of (word (c ∷ s) ∷ ps) f (h, k) = ((is_clean-cons c s h).0, clean-ne l c s h)
  Ends-text_of (identifier i ∷ ps) f k = absurd f
  Ends-text_of (value v ∷ ps) f k = absurd f

  -- A spaced sequence of pieces is read as its pieces.
  pub lex-text_of :
      (ps : List Piece) → IsSpaced ps → lex l outside (text_of e ps) ≡ some (tokens_of ps)
  unfolding value_text lex
  lex-text_of [] k = refl
  lex-text_of (word s ∷ ps) (h, k) = lex-symbols l s (text_of e ps) h ∙ rw (lex-text_of ps k) refl
  lex-text_of (identifier i ∷ ps) (f, k) =
      r.lex-escape_identifier i (text_of e ps) (Ends-text_of ps f k).1 ∙ rw (lex-text_of ps k) refl
  lex-text_of (value none ∷ ps) (f, k) =
      lex-symbols l (codes "NULL") (text_of e ps) refl ∙ rw (lex-text_of ps k) refl
  lex-text_of (value (some v) ∷ ps) (f, k) =
      r.lex-literal v (text_of e ps) (Ends-text_of ps f k).0 ∙ rw (lex-text_of ps k) refl
