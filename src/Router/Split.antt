-- ===== src/Router/Split.antt =====
-- `splitPath` of src/PathRouter.cpp: the non-empty parts of a path between its slashes.
use sql_fuse.Base.{
  All, All-append, Bool-cases, Lacks, List, Text, [], append-nil, append_assoc, arith, false,
  if◌then◌else◌, inl, inr, is_empty, refl, true, ℕ, ◌++◌, ◌==◌, ◌∷◌, ◌≡◌, ◌≢◌,
}

abbrev slash : ℕ
slash = b'/'

-- The loop, over the path that is left; `parts` and `current` are its variables.
split_loop : Text → List Text → Text → List Text
split_loop [] parts current = if is_empty current then parts else parts ++ current ∷ []
split_loop (c ∷ path) parts current = elim (c == slash) [
  | true ↦ split_loop path (if is_empty current then parts else parts ++ current ∷ []) []
  | false ↦ split_loop path parts (current ++ c ∷ [])
]

unfoldable pub split_path : Text → List Text
unfolding split_loop
split_path path = split_loop path [] []

-- A part of a path: not empty, and without a slash.
abbrev pub IsPart : Text → Type 0
IsPart s = (s ≢ []) × Lacks slash s

-- The path with the given parts.
unfoldable pub render : List Text → Text
render [] = []
render (p ∷ ps) = slash ∷ (p ++ render ps)

split_loop-append :
    (p rest : Text) (parts : List Text) (current : Text)
    → Lacks slash p
    → split_loop (p ++ rest) parts current ≡ split_loop rest parts (current ++ p)
unfolding split_loop
split_loop-append [] rest parts current h = rw append-nil
split_loop-append (c ∷ p) rest parts current (n, h) =
    ground
      (arith, split_loop-append p rest parts (current ++ c ∷ []) h, append_assoc current (c ∷ []) p)

-- At the parts so far and an unfinished part that is not empty.
split_loop-render :
    (ps parts : List Text) (current : Text)
    → current ≢ []
    → All IsPart ps
    → split_loop (render ps) parts current ≡ parts ++ current ∷ ps
unfolding split_loop render
split_loop-render ps parts [] n h = absurd (n refl)
split_loop-render [] parts (c ∷ s) n h = refl
split_loop-render (p ∷ ps) parts (c ∷ s) n ((m, l), h) = rw (
  split_loop-append p (render ps) (parts ++ (c ∷ s) ∷ []) [] l,
  split_loop-render ps (parts ++ (c ∷ s) ∷ []) p m h,
  append_assoc,
)

-- Splitting the path made of some parts, none empty or with a slash, gives the parts back.
pub split_path-render : (ps : List Text) → All IsPart ps → split_path (render ps) ≡ ps
unfolding split_path render
split_path-render [] h = unfold split_loop in refl
split_path-render (p ∷ ps) ((m, l), h) =
    unfold split_loop in
    rw (split_loop-append p (render ps) [] [] l) (split_loop-render ps [] p m h)

Lacks-concat : (s : Text) (c : ℕ) → Lacks slash s → c ≢ slash → Lacks slash (s ++ c ∷ [])
Lacks-concat s c h n = All-append _ s (c ∷ []) h (n, tt)

append-ne-nil : (s : Text) (c : ℕ) → s ++ c ∷ [] ≢ []
append-ne-nil [] c h = ground arith
append-ne-nil (x ∷ s) c h = ground arith

split_loop-IsPart :
    (path : Text) (parts : List Text) (current : Text)
    → All IsPart parts
    → Lacks slash current
    → All IsPart (split_loop path parts current)
unfolding split_loop
split_loop-IsPart [] parts [] h k = h
split_loop-IsPart [] parts (c ∷ s) h k = All-append IsPart parts _ h (((λ e. ground arith), k), tt)
split_loop-IsPart (c ∷ path) parts current h k = elim (Bool-cases (c == slash)) [
  | inl e ↦ rw (e, split_loop) (split_loop-IsPart path _ [] (closed parts current h k) tt)
  | inr e ↦
      rw (e, split_loop)
        (split_loop-IsPart path parts (current ++ c ∷ []) h
          (Lacks-concat current c k (ground arith)))
]
  where
    closed :
        (parts : List Text) (current : Text)
        → All IsPart parts
        → Lacks slash current
        → All IsPart (if is_empty current then parts else parts ++ current ∷ [])
    closed parts [] h k = h
    closed parts (c ∷ s) h k = All-append IsPart parts _ h (((λ e. ground arith), k), tt)

-- No part of a split path is empty or holds a slash.
pub split_path-IsPart : (path : Text) → All IsPart (split_path path)
unfolding split_path
split_path-IsPart path = split_loop-IsPart path [] [] tt tt
