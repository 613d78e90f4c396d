-- ===== src/Sql/Names.antt =====
-- `escapeIdentifier` of the classes, read by the lexical rules of the database.
use sql_fuse.Base.{
  ==-eq, ==-ne, Bool-cases, Lacks, List, Text, [], ap, append-nil, append_assoc, arith, codes,
  false, if◌then◌else◌, inl, inr, length, length-append, none, refl, some, suc, zero, ℕ, ◌++◌, ◌==◌,
  ◌∙◌, ◌∷◌, ◌≡◌, ◌≢◌, ◌≤◌, ◌⊎◌,
}
use sql_fuse.Sql.Escapes.{double, quoted, find_dot, escape_dotted}
use sql_fuse.Sql.Lexer.{
  Lexicon, standard, backslashes, Token, symbol, name, name_kind, name_quote, outside, inside,
  prepend, lex, start, is_escape,
}
use sql_fuse.Sql.Quoting.{
  prepend-prepend, prepend-nil, Ends, lex-each_char, lex-close, double-Stands, each_char_single,
}

-- The names between the dots of an identifier, and the dots.
unfoldable pub qualified : Text → Text → List Token
qualified current [] = name current ∷ []
qualified current (c ∷ s) =
    if c == b'.' then name current ∷ symbol c ∷ qualified [] s else qualified (current ++ c ∷ []) s

name-start : (l : Lexicon) → start l (name_quote l) ≡ (inside name_kind [], [])
name-start standard = refl
name-start backslashes = refl

no_escape : (l : Lexicon) (c : ℕ) → is_escape l name_kind c ≡ false
no_escape standard c = refl
no_escape backslashes c = refl

-- A quoted identifier that is not followed by the quote is read as the identifier.
pub lex-quoted :
    (l : Lexicon) (identifier rest : Text)
    → Ends (name_quote l) rest
    → lex l outside (quoted (name_quote l) identifier ++ rest)
      ≡ prepend (name identifier ∷ []) (lex l outside rest)
unfolding quoted lex
lex-quoted l identifier rest h =
    rw (name-start l, append_assoc)
      (prepend-nil _
        ∙ (lex-each_char l name_kind (double (name_quote l)) (λ c. c ∷ []) identifier []
              (name_quote l ∷ rest) (double-Stands l name_kind (no_escape l))
            ∙ rw (each_char_single identifier) (lex-close l name_kind identifier rest h)))

ne_of_==-false : (a b : ℕ) → (a == b) ≡ false → a ≢ b
ne_of_==-false a b h = ground (arith, h)

pub find_dot-cases :
    (s : Text)
    → ((find_dot s ≡ none) × Lacks b'.' s)
      ⊎ ((before after : Text) × (find_dot s ≡ some (before, after))
          × (s ≡ before ++ b'.' ∷ after)
          × Lacks b'.' before)
unfolding find_dot
find_dot-cases [] = inl (refl, tt)
find_dot-cases (c ∷ s) = elim (Bool-cases (c == b'.')) [
  | inl h ↦ inr ([], s, rw h refl, rw (==-eq c b'.' h) refl, tt)
  | inr h ↦ elim (find_dot-cases s) [
    | inl (e, k) ↦ inl (rw (h, e) refl, (ne_of_==-false c b'.' h, k))
    | inr (before, after, e, split, k) ↦
        inr (c ∷ before, after, rw (h, e) refl, ap (◌∷◌ c) split, (ne_of_==-false c b'.' h, k))
  ]
]

find_dot-Lacks : (s : Text) → Lacks b'.' s → find_dot s ≡ none
unfolding find_dot
find_dot-Lacks [] k = refl
find_dot-Lacks (c ∷ s) (n, k) = rw (==-ne c b'.' n, find_dot-Lacks s k) refl

escape_dotted-Lacks : (q fuel : ℕ) (s : Text) → Lacks b'.' s → escape_dotted q fuel s ≡ quoted q s
unfolding escape_dotted
escape_dotted-Lacks q zero s k = refl
escape_dotted-Lacks q (suc fuel) s k = rw (find_dot-Lacks s k, escape_dotted) refl

qualified-Lacks : (current s : Text) → Lacks b'.' s → qualified current s ≡ name (current ++ s) ∷ []
unfolding qualified
qualified-Lacks current [] k = rw append-nil refl
qualified-Lacks current (c ∷ s) (n, k) =
    rw (==-ne c b'.' n) (qualified-Lacks (current ++ c ∷ []) s k ∙ rw append_assoc refl)

qualified-dot :
    (current s t : Text)
    → Lacks b'.' s
    → qualified current (s ++ b'.' ∷ t) ≡ name (current ++ s) ∷ symbol b'.' ∷ qualified [] t
unfolding qualified
qualified-dot current [] t k = rw append-nil refl
qualified-dot current (c ∷ s) t (n, k) =
    rw (==-ne c b'.' n) (qualified-dot (current ++ c ∷ []) s t k ∙ rw append_assoc refl)

find_dot-split :
    (before after : Text)
    → Lacks b'.' before
    → find_dot (before ++ b'.' ∷ after) ≡ some (before, after)
unfolding find_dot
find_dot-split [] after k = refl
find_dot-split (c ∷ before) after (n, k) = rw (==-ne c b'.' n, find_dot-split before after k) refl

escape_dotted-dot :
    (q fuel : ℕ) (before after : Text)
    → Lacks b'.' before
    → escape_dotted q (suc fuel) (before ++ b'.' ∷ after)
      ≡ quoted q before ++ (codes "." ++ escape_dotted q fuel after)
unfolding escape_dotted
escape_dotted-dot q fuel before after k =
    rw (find_dot-split before after k, escape_dotted)
      (rw (escape_dotted-Lacks q fuel before k) refl)

lex-dot :
    (l : Lexicon) (rest : Text)
    → lex l outside (b'.' ∷ rest) ≡ prepend (symbol b'.' ∷ []) (lex l outside rest)
unfolding lex
lex-dot standard rest = refl
lex-dot backslashes rest = refl

dot-ne : (l : Lexicon) → (b'.' == name_quote l) ≡ false
dot-ne standard = refl
dot-ne backslashes = refl

shorter :
    (before after identifier : Text) (fuel : ℕ)
    → identifier ≡ before ++ b'.' ∷ after
    → length identifier ≤ suc fuel
    → length after ≤ fuel
shorter before after identifier fuel split enough =
    omega (arith, length-append before (b'.' ∷ after), rw split at enough)

lex-escape_dotted-split :
    (l : Lexicon) (fuel : ℕ) (before after identifier rest : Text)
    → identifier ≡ before ++ b'.' ∷ after
    → Lacks b'.' before
    → lex l outside (escape_dotted (name_quote l) fuel after ++ rest)
      ≡ prepend (qualified [] after) (lex l outside rest)
    → lex l outside (escape_dotted (name_quote l) (suc fuel) identifier ++ rest)
      ≡ prepend (qualified [] identifier) (lex l outside rest)
lex-escape_dotted-split l fuel before after identifier rest split k h =
    rw
      (
        split,
        escape_dotted-dot (name_quote l) fuel before after k,
        qualified-dot [] before after k,
        append_assoc,
      )
      (lex-quoted l before _ (dot-ne l)
        ∙ rw (lex-dot, h) (rw (prepend-prepend, prepend-prepend) refl))

-- An escaped identifier is read as the names between its dots, if its length is at most the fuel.
pub lex-escape_dotted :
    (l : Lexicon) (fuel : ℕ) (identifier rest : Text)
    → length identifier ≤ fuel
    → Ends (name_quote l) rest
    → lex l outside (escape_dotted (name_quote l) fuel identifier ++ rest)
      ≡ prepend (qualified [] identifier) (lex l outside rest)
unfolding escape_dotted quoted qualified
lex-escape_dotted l zero [] rest enough h = lex-quoted l [] rest h
lex-escape_dotted l zero (c ∷ s) rest enough h = absurd (omega (arith, enough))
lex-escape_dotted l (suc fuel) identifier rest enough h = elim (find_dot-cases identifier) [
  | inl (e, k) ↦
      rw
        (
          escape_dotted-Lacks (name_quote l) (suc fuel) identifier k,
          qualified-Lacks [] identifier k,
        )
        (lex-quoted l identifier rest h)
  | inr (before, after, e, split, k) ↦
      lex-escape_dotted-split l fuel before after identifier rest split k
        (lex-escape_dotted l fuel after rest (shorter before after identifier fuel split enough) h)
]
