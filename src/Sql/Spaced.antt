-- ===== src/Sql/Spaced.antt =====
-- Sequences of pieces that a database reads piece by piece.
use sql_fuse.Base.{
  Bool, List, Text, [], arith, false, refl, to_string, to_string-holds, true, ℕ, ◌&&◌, ◌++◌, ◌+◌,
  ◌<◌, ◌∷◌, ◌≡◌,
}
use sql_fuse.Sql.Pieces.{Piece, word, identifier, value, is_clean, Follows, IsSpaced}

abbrev pub follows : List Piece → Bool
follows [] = true
follows (word (c ∷ s) ∷ ps) = true
follows _ = false

-- The test of what is asked of a sequence, but for the words that are numbers.
abbrev pub is_spaced : List Piece → Bool
is_spaced [] = true
is_spaced (word s ∷ ps) = is_clean s && is_spaced ps
is_spaced (identifier i ∷ ps) = follows ps && is_spaced ps
is_spaced (value v ∷ ps) = follows ps && is_spaced ps

both : (a b : Bool) → (a && b) ≡ true → (a ≡ true) × (b ≡ true)
both true true h = (refl, refl)
both true false h = absurd cc
both false b h = absurd cc

follows_sound : (ps : List Piece) → follows ps ≡ true → Follows ps
follows_sound [] h = tt
follows_sound (word [] ∷ ps) h = absurd cc
follows_sound (word (c ∷ s) ∷ ps) h = tt
follows_sound (identifier i ∷ ps) h = absurd cc
follows_sound (value v ∷ ps) h = absurd cc

pub is_spaced_sound : (ps : List Piece) → is_spaced ps ≡ true → IsSpaced ps
is_spaced_sound [] h = tt
is_spaced_sound (word s ∷ ps) h = let (a, b) = both _ _ h in (a, is_spaced_sound ps b)
is_spaced_sound (identifier i ∷ ps) h =
    let (a, b) = both _ _ h in (follows_sound ps a, is_spaced_sound ps b)
is_spaced_sound (value v ∷ ps) h =
    let (a, b) = both _ _ h in (follows_sound ps a, is_spaced_sound ps b)

-- The digits of a number are no quotes.
is_clean-append : (s t : Text) → is_clean s ≡ true → is_clean t ≡ true → is_clean (s ++ t) ≡ true
is_clean-append [] t h k = k
is_clean-append (c ∷ s) t h k = ground (arith, is_clean-append s t)

is_clean-digit : (n : ℕ) → n < 10 → is_clean ((b'0' + n) ∷ []) ≡ true
is_clean-digit n h = ground arith

pub is_clean-to_string : (n : ℕ) → is_clean (to_string n) ≡ true
is_clean-to_string n =
    to_string-holds (λ t. is_clean t ≡ true) refl is_clean-digit is_clean-append n
