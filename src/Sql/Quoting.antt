-- ===== src/Sql/Quoting.antt =====
-- The escaped identifiers and values, read by the lexical rules of the database.
use sql_fuse.Base.{
  ==-eq, ==-refl, Bool-cases, List, Option, Text, [], ap, append-nil, append_assoc, false, inl, inr,
  none, refl, some, subst, sym, ℕ, ◌++◌, ◌==◌, ◌∙◌, ◌∷◌, ◌≡◌,
}
use sql_fuse.Sql.Escapes.{each_char, double}
use sql_fuse.Sql.Lexer.{
  Lexicon, Token, text, Kind, text_kind, quote_of, token_of, outside, inside, prepend, lex,
  is_escape,
}

pub prepend-prepend :
    (ts us : List Token) (o : Option (List Token))
    → prepend ts (prepend us o) ≡ prepend (ts ++ us) o
prepend-prepend ts us none = refl
prepend-prepend ts us (some vs) = rw append_assoc refl

-- A text that does not go on with the quote.
abbrev pub Ends : ℕ → Text → Type 0
Ends q [] = Unit
Ends q (c ∷ s) = (c == q) ≡ false

-- Inside of quotes, what is written for a byte stands for another text.
abbrev pub Stands : Lexicon → Kind → (ℕ → Text) → (ℕ → Text) → Type 0
Stands l k f g =
    (c : ℕ) (s rest : Text) → lex l (inside k s) (f c ++ rest) ≡ lex l (inside k (s ++ g c)) rest

pub lex-each_char :
    (l : Lexicon) (k : Kind) (f g : ℕ → Text) (t s rest : Text)
    → Stands l k f g
    → lex l (inside k s) (each_char f t ++ rest) ≡ lex l (inside k (s ++ each_char g t)) rest
unfolding each_char
lex-each_char l k f g [] s rest h = rw append-nil refl
lex-each_char l k f g (c ∷ t) s rest h =
    rw append_assoc (h c s (each_char f t ++ rest))
    ∙ (lex-each_char l k f g t (s ++ g c) rest h ∙ rw append_assoc refl)

pub prepend-nil : (o : Option (List Token)) → prepend [] o ≡ o
prepend-nil none = refl
prepend-nil (some ts) = refl

pub prepend-nil_twice : (o : Option (List Token)) → prepend [] (prepend [] o) ≡ o
prepend-nil_twice o = prepend-nil _ ∙ prepend-nil o

pub lex-close :
    (l : Lexicon) (k : Kind) (s rest : Text)
    → Ends (quote_of l k) rest
    → lex l (inside k s) (quote_of l k ∷ rest) ≡ prepend (token_of k s ∷ []) (lex l outside rest)
unfolding lex
lex-close l k s [] h = rw (==-refl (quote_of l k)) refl
lex-close l k s (c ∷ rest) h =
    rw (==-refl (quote_of l k), h) (rw (prepend-nil, prepend-prepend) refl)

-- A property of every byte, proved at one byte and at the others.
pub by_byte {ℓ} : (P : ℕ → Type ℓ) (n c : ℕ) → P n → ((c == n) ≡ false → P c) → P c
by_byte P n c at other = elim (Bool-cases (c == n)) [
  | inl h ↦ subst P (sym (==-eq c n h)) at
  | inr h ↦ other h
]

-- A doubled quote stands for the quote.
pub double-Stands :
    (l : Lexicon) (k : Kind)
    → ((c : ℕ) → is_escape l k c ≡ false)
    → Stands l k (double (quote_of l k)) (λ c. c ∷ [])
unfolding lex
double-Stands l k free c s rest = elim (Bool-cases (c == quote_of l k)) [
  | inl h ↦ rw (h, h) (rw h (prepend-nil_twice _))
  | inr h ↦ rw (h, free c) (rw h (prepend-nil _))
]

-- An escaped text between single quotes that are not followed by another is read as the text that
-- it stands for.
pub lex-single_as :
    (l : Lexicon) (f g : ℕ → Text) (value rest : Text)
    → Stands l text_kind f g
    → Ends b'\'' rest
    → lex l outside ((b'\'' ∷ (each_char f value ++ b'\'' ∷ [])) ++ rest)
      ≡ prepend (text (each_char g value) ∷ []) (lex l outside rest)
unfolding lex
lex-single_as l f g value rest stands h = rw append_assoc (
    prepend-nil _
    ∙ (lex-each_char l text_kind f g value [] (b'\'' ∷ rest) stands
        ∙ lex-close l text_kind (each_char g value) rest h))

pub each_char_single : (s : Text) → each_char (λ c. c ∷ []) s ≡ s
unfolding each_char
each_char_single [] = refl
each_char_single (c ∷ s) = ap (◌∷◌ c) (each_char_single s)

pub lex-single :
    (l : Lexicon) (f : ℕ → Text) (value rest : Text)
    → Stands l text_kind f (λ c. c ∷ [])
    → Ends b'\'' rest
    → lex l outside ((b'\'' ∷ (each_char f value ++ b'\'' ∷ [])) ++ rest)
      ≡ prepend (text value ∷ []) (lex l outside rest)
lex-single l f value rest stands h =
    lex-single_as l f (λ c. c ∷ []) value rest stands h ∙ rw (each_char_single value) refl
