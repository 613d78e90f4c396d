-- ===== src/Sql/Escapes.antt =====
-- The parts of `escapeIdentifier` and `escapeSQL` that the classes share.
use sql_fuse.Base.{
  Option, Text, [], codes, if◌then◌else◌, none, some, suc, zero, ℕ, ◌++◌, ◌==◌, ◌∷◌,
}

-- `for (char c : value)`: what is written for each byte.
unfoldable pub each_char : (ℕ → Text) → Text → Text
each_char f [] = []
each_char f (c ∷ s) = f c ++ each_char f s

-- A byte is doubled, any other written as it is.
abbrev pub double : ℕ → ℕ → Text
double q c = if c == q then c ∷ c ∷ [] else c ∷ []

-- An identifier between quotes, with the quotes in it doubled.
unfoldable pub quoted : ℕ → Text → Text
unfolding each_char
quoted q identifier = q ∷ (each_char (double q) identifier ++ q ∷ [])

-- `identifier.find('.')`, as the text before the dot and the text after it.
unfoldable pub find_dot : Text → Option (Text × Text)
find_dot [] = none
find_dot (c ∷ s) =
    let found = find_dot s in
    if c == b'.'
    then some ([], s)
    else elim found [ none ↦ none | some (before, after) ↦ some (c ∷ before, after) ]

-- The recursion of `escapeIdentifier` on the text before the dot and on the text after it. Both are
-- shorter than the identifier, so its length is enough fuel.
unfoldable pub escape_dotted : ℕ → ℕ → Text → Text
unfolding find_dot quoted
escape_dotted q zero identifier = quoted q identifier
escape_dotted q (suc fuel) identifier = elim (find_dot identifier) [
  | none ↦ quoted q identifier
  | some (before, after) ↦ escape_dotted q fuel before ++ (codes "." ++ escape_dotted q fuel after)
]
