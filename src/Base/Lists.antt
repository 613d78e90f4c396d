-- ===== src/Base/Lists.antt =====
-- Lists measured and indexed by native numbers, under the library's names, and predicates by
-- recursion.
use Prim.Native.Nat.{ℕ, zero, suc, ◌+◌, ◌-◌, ◌≤◌, ◌<◌, min}
use mathlib.Core.Path.{◌≡◌, refl, ap, ◌∙◌}
use mathlib.Core.Bool.{Bool, true, false}
use mathlib.Core.List.{List, [], ◌∷◌, ◌++◌}
use native.Mathlib.Omega.{arith}

module _ {ℓ} {A : Type ℓ} where
  abbrev pub length : List A → ℕ
  length [] = 0
  length (x ∷ xs) = suc (length xs)

  abbrev pub take : ℕ → List A → List A
  take zero xs = []
  take (suc n) [] = []
  take (suc n) (x ∷ xs) = x ∷ take n xs

  abbrev pub drop : ℕ → List A → List A
  drop zero xs = xs
  drop (suc n) [] = []
  drop (suc n) (x ∷ xs) = drop n xs

  abbrev pub replicate : ℕ → A → List A
  replicate zero a = []
  replicate (suc n) a = a ∷ replicate n a

  -- The test of `empty()`.
  abbrev pub is_empty : List A → Bool
  is_empty [] = true
  is_empty (x ∷ xs) = false

  pub length-append : (xs ys : List A) → length (xs ++ ys) ≡ length xs + length ys
  length-append [] ys = omega arith
  length-append (x ∷ xs) ys = omega (arith, length-append xs ys)

  pub length-replicate : (n : ℕ) (a : A) → length (replicate n a) ≡ n
  length-replicate zero a = refl
  length-replicate (suc n) a = ap suc (length-replicate n a)

module _ {ℓ κ} {A : Type ℓ} (P : A → Type κ) where
  abbrev pub All : List A → Type κ
  All [] = Unit
  All (x ∷ xs) = P x × All xs

  pub All-append : (xs ys : List A) → All xs → All ys → All (xs ++ ys)
  All-append [] ys h k = k
  All-append (x ∷ xs) ys (p, h) k = (p, All-append xs ys h k)

module _ {ℓ} {A : Type ℓ} where
  pub take-append : (s t : List A) → take (length s) (s ++ t) ≡ s
  take-append [] t = refl
  take-append (x ∷ s) t = ap (◌∷◌ x) (take-append s t)

  pub drop-append : (s t : List A) → drop (length s) (s ++ t) ≡ t
  drop-append [] t = refl
  drop-append (y ∷ s) t = drop-append s t

-- The element at a position, or a default.
module _ {ℓ} {A : Type ℓ} where
  abbrev pub get_or : List A → ℕ → A → A
  get_or [] i d = d
  get_or (x ∷ xs) zero d = x
  get_or (x ∷ xs) (suc i) d = get_or xs i d

  pub get_or-append_left :
      (s t : List A) (i : ℕ) (d : A) → i < length s → get_or (s ++ t) i d ≡ get_or s i d
  get_or-append_left [] t i d h = absurd (omega arith)
  get_or-append_left (x ∷ s) t zero d h = refl
  get_or-append_left (x ∷ s) t (suc i) d h = get_or-append_left s t i d (omega arith)

  pub get_or-append_right :
      (s t : List A) (i : ℕ) (d : A)
      → length s ≤ i
      → get_or (s ++ t) i d ≡ get_or t (i - length s) d
  get_or-append_right [] t i d h = ap (λ (j : ℕ). get_or t j d) (omega arith)
  get_or-append_right (x ∷ s) t zero d h = absurd (omega arith)
  get_or-append_right (x ∷ s) t (suc i) d h =
      get_or-append_right s t i d (omega arith) ∙ ap (λ (j : ℕ). get_or t j d) (omega arith)

  pub get_or-take :
      (n : ℕ) (s : List A) (i : ℕ) (d : A) → i < n → get_or (take n s) i d ≡ get_or s i d
  get_or-take zero s i d h = absurd (omega arith)
  get_or-take (suc n) [] i d h = refl
  get_or-take (suc n) (x ∷ s) zero d h = refl
  get_or-take (suc n) (x ∷ s) (suc i) d h = get_or-take n s i d (omega arith)

  pub get_or-drop :
      (n : ℕ) (s : List A) (i : ℕ) (d : A) → get_or (drop n s) i d ≡ get_or s (n + i) d
  get_or-drop zero s i d = ap (λ (j : ℕ). get_or s j d) (omega arith)
  get_or-drop (suc n) [] i d = refl
  get_or-drop (suc n) (x ∷ s) i d =
      get_or-drop n s i d
      ∙ ap (λ (j : ℕ). get_or (x ∷ s) j d) (let e : suc (n + i) ≡ suc n + i = omega arith in e)

  pub get_or-replicate : (n : ℕ) (i : ℕ) (d : A) → get_or (replicate n d) i d ≡ d
  get_or-replicate zero i d = refl
  get_or-replicate (suc n) zero d = refl
  get_or-replicate (suc n) (suc i) d = get_or-replicate n i d

  pub get_or_past : (s : List A) (i : ℕ) (d : A) → length s ≤ i → get_or s i d ≡ d
  get_or_past [] i d h = refl
  get_or_past (x ∷ s) zero d h = absurd (omega arith)
  get_or_past (x ∷ s) (suc i) d h = get_or_past s i d (omega arith)

  pub length-take : (n : ℕ) (s : List A) → length (take n s) ≡ min n (length s)
  length-take zero s = omega arith
  length-take (suc n) [] = omega arith
  length-take (suc n) (x ∷ s) = omega (arith, length-take n s)

  pub length-drop : (n : ℕ) (s : List A) → length (drop n s) ≡ length s - n
  length-drop zero s = omega arith
  length-drop (suc n) [] = omega arith
  length-drop (suc n) (x ∷ s) = omega (arith, length-drop n s)

  pub take_of_length-le : (n : ℕ) (s : List A) → length s ≤ n → take n s ≡ s
  take_of_length-le zero [] h = refl
  take_of_length-le zero (x ∷ s) h = absurd (omega arith)
  take_of_length-le (suc n) [] h = refl
  take_of_length-le (suc n) (x ∷ s) h = ap (◌∷◌ x) (take_of_length-le n s (omega arith))

  pub drop_of_length-le : (n : ℕ) (s : List A) → length s ≤ n → drop n s ≡ []
  drop_of_length-le zero [] h = refl
  drop_of_length-le zero (x ∷ s) h = absurd (omega arith)
  drop_of_length-le (suc n) [] h = refl
  drop_of_length-le (suc n) (x ∷ s) h = drop_of_length-le n s (omega arith)
