-- ===== src/Base/Keys.antt =====
-- Lists of keys without repetition: membership, removal and the last element.
use mathlib.Core.Path.{◌≡◌, refl}
use mathlib.Core.Logic.{◌⊎◌, inl, inr}
use mathlib.Core.Bool.{Bool, false, ◌||◌}
use mathlib.Core.Option.{Option, none, some}
use mathlib.Core.List.{List, [], ◌∷◌, ◌++◌}
use native.Mathlib.Omega.{arith}
use sql_fuse.Base.Tests.{if◌then◌else◌}
use sql_fuse.Base.Bytes.{Text, text_eq, text_eq_iff, text_eq_refl}

unfoldable pub mem : Text → List Text → Bool
mem k [] = false
mem k (j ∷ l) = text_eq j k || mem k l

unfoldable pub remove : Text → List Text → List Text
remove k [] = []
remove k (j ∷ l) = if text_eq j k then remove k l else j ∷ remove k l

abbrev pub Distinct : List Text → Type 0
Distinct [] = Unit
Distinct (k ∷ l) = (mem k l ≡ false) × Distinct l

pub mem-remove :
    (k j : Text) (l : List Text) → mem j (remove k l) ≡ (if text_eq k j then false else mem j l)
unfolding mem remove
mem-remove k j [] = ground arith
mem-remove k j (i ∷ l) =
    ground (arith, text_eq_iff k j, text_eq_iff i k, text_eq_iff i j, mem-remove k j l)

pub mem-append : (k : Text) (l m : List Text) → mem k (l ++ m) ≡ mem k l || mem k m
unfolding mem
mem-append k [] m = refl
mem-append k (j ∷ l) m = ground (arith, mem-append k l m)

pub remove-Distinct : (k : Text) (l : List Text) → Distinct l → Distinct (remove k l)
unfolding remove
remove-Distinct k [] h = tt
remove-Distinct k (j ∷ l) (n, h) =
    ground (arith, remove-Distinct k l h, mem-remove k j l, text_eq_iff k j, text_eq_iff j k)

-- `back()` and `pop_back()`: the list without its last element, and that element.
unfoldable pub pop_back {ℓ} : {A : Type ℓ} → List A → Option (List A × A)
pop_back [] = none
pop_back (x ∷ xs) = elim (pop_back xs) [ none ↦ some ([], x) | some (ys, y) ↦ some (x ∷ ys, y) ]

-- Only the empty list has no last element; any other is what is left, and that element.
pub pop_back-cases {ℓ} :
    {A : Type ℓ} (l : List A)
    → ((l ≡ []) × (pop_back l ≡ none))
      ⊎ ((ys : List A) × (y : A) × (l ≡ ys ++ y ∷ []) × (pop_back l ≡ some (ys, y)))
unfolding pop_back
pop_back-cases [] = inl (refl, refl)
pop_back-cases (x ∷ xs) = elim (pop_back-cases xs) [
  | inl (e, n) ↦ inr ([], x, rw e, rw n)
  | inr (ys, y, e, n) ↦ inr (x ∷ ys, y, rw e, rw n)
]

pub mem-concat : (j k : Text) (l : List Text) → mem j (l ++ k ∷ []) ≡ mem j l || text_eq k j
unfolding mem
mem-concat j k [] = ground arith
mem-concat j k (i ∷ l) = ground (arith, mem-concat j k l)

-- The last of a list without repetition is not in the rest.
pub Distinct-concat :
    (k : Text) (l : List Text) → Distinct (l ++ k ∷ []) → Distinct l × (mem k l ≡ false)
unfolding mem
Distinct-concat k [] h = (tt, refl)
Distinct-concat k (i ∷ l) (n, h) =
    let (d, m) = Distinct-concat k l h in
    (
      (ground (arith, mem-concat i k l), d),
      ground (arith, mem-concat i k l, m, text_eq_iff i k, text_eq_iff k i, text_eq_refl k),
    )

pub pop_back-concat {ℓ} : {A : Type ℓ} (s : List A) (c : A) → pop_back (s ++ c ∷ []) ≡ some (s, c)
unfolding pop_back
pop_back-concat [] c = refl
pop_back-concat (a ∷ s) c = rw (pop_back-concat s c)
