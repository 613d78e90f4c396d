-- ===== src/Pool/Listed.antt =====
-- Lists of settings as texts, and how libpq reads them.
use sql_fuse.Base.{
  All, Bool, Option, Text, [], ap, append-nil, append_assoc, arith, by_if, decimal, false, is_empty,
  ltb, none, not, refl, some, to_string, to_string-holds, true, ℕ, ◌&&◌, ◌++◌, ◌+◌, ◌/◌, ◌<◌, ◌==◌,
  ◌||◌, ◌∙◌, ◌∷◌, ◌≡◌,
}
use sql_fuse.Schema.Server.{is_space}
use sql_fuse.Pool.Guards.{both}
use sql_fuse.Pool.Conninfo.{between, in_key, at_value, in_value, Settings, next, ended, after, read}

-- A byte that stands for itself in a value that is not quoted.
abbrev pub is_plain_byte : ℕ → Bool
is_plain_byte c = not (is_space c || (c == b'\'' || c == b'\\'))

abbrev pub is_plain : Text → Bool
is_plain [] = true
is_plain (c ∷ s) = is_plain_byte c && is_plain s

-- The settings of a list as a text, each after a blank.
abbrev pub text_of : Settings → Text
text_of [] = []
text_of ((key, value) ∷ l) = b' ' ∷ (key ++ b'=' ∷ (value ++ text_of l))

abbrev pub is_key : Text → Bool
is_key [] = true
is_key (c ∷ s) = (not (is_space c) && not (c == b'=')) && is_key s

-- A setting that can be written without quotes.
abbrev pub IsSetting : Text × Text → Type 0
IsSetting (key, value) =
    (is_empty key ≡ false)
    × (is_key key ≡ true)
    × (is_empty value ≡ false)
    × (is_plain value ≡ true)

after-nil : (o : Option Settings) → after [] o ≡ o
after-nil none = refl
after-nil (some rest) = refl

next-in_key :
    (k : Text) (c : ℕ)
    → (not (is_space c) && not (c == b'=')) ≡ true
    → next (in_key k) c ≡ in_key (k ++ c ∷ [])
unfolding next
next-in_key k c h = ground arith

next-in_value :
    (k v : Text) (c : ℕ)
    → is_plain_byte c ≡ true
    → (next (in_value k v) c ≡ in_value k (v ++ c ∷ [])) × (ended (in_value k v) c ≡ [])
unfolding next ended
next-in_value k v c h = (ground arith, ground arith)

next-at_value :
    (k : Text) (c : ℕ) → is_plain_byte c ≡ true → next (at_value k) c ≡ in_value k (c ∷ [])
unfolding next
next-at_value k c h = ground arith

next-between : (c : ℕ) → is_space c ≡ false → next between c ≡ in_key (c ∷ [])
unfolding next
next-between c h = ground arith

read-in_key :
    (k w s : Text) → is_key w ≡ true → read (in_key k) (w ++ b'=' ∷ s) ≡ read (at_value (k ++ w)) s
unfolding read next ended
read-in_key k [] s h = rw append-nil (after-nil _)
read-in_key k (c ∷ w) s h =
    let (a, b) = both _ _ h in
    after-nil _
    ∙ ap (λ r. read r (w ++ b'=' ∷ s)) (next-in_key k c a)
    ∙ read-in_key (k ++ c ∷ []) w s b
    ∙ rw append_assoc refl

read-in_value :
    (k v w s : Text)
    → is_plain w ≡ true
    → read (in_value k v) (w ++ s) ≡ read (in_value k (v ++ w)) s
unfolding read
read-in_value k v [] s h = rw append-nil refl
read-in_value k v (c ∷ w) s h =
    let (a, b) = both _ _ h in
    let (one, quiet) = next-in_value k v c a in
    ap (λ l. after l (read (next (in_value k v) c) (w ++ s))) quiet
    ∙ after-nil _
    ∙ ap (λ r. read r (w ++ s)) one
    ∙ read-in_value k (v ++ c ∷ []) w s b
    ∙ rw append_assoc refl

pub read-at_value :
    (k w s : Text)
    → is_empty w ≡ false
    → is_plain w ≡ true
    → read (at_value k) (w ++ s) ≡ read (in_value k w) s
unfolding read ended
read-at_value k [] s full h = absurd cc
read-at_value k (c ∷ w) s full h =
    let (a, b) = both _ _ h in
    after-nil _ ∙ ap (λ r. read r (w ++ s)) (next-at_value k c a) ∙ read-in_value k (c ∷ []) w s b

first-is_key : (c : ℕ) (k : Text) → is_key (c ∷ k) ≡ true → is_space c ≡ false
first-is_key c k h = ground arith

pub read-between :
    (k s : Text)
    → is_empty k ≡ false
    → is_key k ≡ true
    → read between (k ++ b'=' ∷ s) ≡ read (at_value k) s
unfolding read ended
read-between [] s full h = absurd cc
read-between (c ∷ k) s full h =
    let (a, b) = both _ _ h in
    after-nil _
    ∙ ap (λ r. read r (k ++ b'=' ∷ s)) (next-between c (first-is_key c k h))
    ∙ read-in_key (c ∷ []) k s b

-- The settings after a value.
pub read-text_of :
    (k v : Text) (l : Settings)
    → All IsSetting l
    → read (in_value k v) (text_of l) ≡ some ((k, v) ∷ l)
unfolding read next ended
read-text_of k v [] h = refl
read-text_of k v ((key, value) ∷ l) ((named, key_fits, full, fits), rest) =
    ap (after ((k, v) ∷ [])) (
      read-between key (value ++ text_of l) named key_fits
      ∙ read-at_value key value (text_of l) full fits
      ∙ read-text_of key value l rest)

is_plain-append : (s t : Text) → is_plain s ≡ true → is_plain t ≡ true → is_plain (s ++ t) ≡ true
is_plain-append [] t h k = k
is_plain-append (c ∷ s) t h k = ground (arith, is_plain-append s t)

is_plain-digit : (n : ℕ) → n < 10 → is_plain ((b'0' + n) ∷ []) ≡ true
is_plain-digit n h = ground arith

pub is_plain-to_string : (n : ℕ) → is_plain (to_string n) ≡ true
is_plain-to_string n =
    to_string-holds (λ t. is_plain t ≡ true) refl is_plain-digit is_plain-append n

is_empty-last : (s : Text) (c : ℕ) → is_empty (s ++ c ∷ []) ≡ false
is_empty-last [] c = refl
is_empty-last (b ∷ s) c = refl

pub to_string-is_empty : (n : ℕ) → is_empty (to_string n) ≡ false
unfolding to_string decimal
to_string-is_empty n =
    by_if (λ (t : Text). is_empty t ≡ false) (ltb n 10) (λ small. refl)
      (λ large. is_empty-last (decimal n (n / 10)) _)
