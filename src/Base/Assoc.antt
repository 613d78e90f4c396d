-- ===== src/Base/Assoc.antt =====
-- `std::unordered_map<std::string, V>` as an association list.
use mathlib.Core.Path.{◌≡◌, refl}
use mathlib.Core.Bool.{Bool, true, false, ◌||◌}
use mathlib.Core.Option.{Option, none, some}
use mathlib.Core.List.{List, [], ◌∷◌, map}
use native.Mathlib.Omega.{arith}
use sql_fuse.Base.Tests.{if◌then◌else◌}
use sql_fuse.Base.Bytes.{Text, text_eq, text_eq_iff}
use sql_fuse.Base.Keys.{mem, Distinct}

module _ {ℓ} {V : Type ℓ} where
  unfoldable pub lookup : Text → List (Text × V) → Option V
  lookup k [] = none
  lookup k ((j, v) ∷ m) = if text_eq j k then some v else lookup k m

  -- `m[k] = v`.
  unfoldable pub insert : Text → V → List (Text × V) → List (Text × V)
  insert k v [] = (k, v) ∷ []
  insert k v ((j, w) ∷ m) = if text_eq j k then (j, v) ∷ m else (j, w) ∷ insert k v m

  unfoldable pub erase : Text → List (Text × V) → List (Text × V)
  erase k [] = []
  erase k ((j, v) ∷ m) = if text_eq j k then erase k m else (j, v) ∷ erase k m

  abbrev pub keys : List (Text × V) → List Text
  keys = map (λ e. e.0)

  pub lookup-insert :
      (k j : Text) (v : V) (m : List (Text × V))
      → lookup j (insert k v m) ≡ (if text_eq k j then some v else lookup j m)
  unfolding lookup insert
  lookup-insert k j v [] = ground arith
  lookup-insert k j v ((i, w) ∷ m) =
      ground (arith, text_eq_iff k j, text_eq_iff i k, text_eq_iff i j, lookup-insert k j v m)

  pub lookup-erase :
      (k j : Text) (m : List (Text × V))
      → lookup j (erase k m) ≡ (if text_eq k j then none else lookup j m)
  unfolding lookup erase
  lookup-erase k j [] = ground arith
  lookup-erase k j ((i, w) ∷ m) =
      ground (arith, text_eq_iff k j, text_eq_iff i k, text_eq_iff i j, lookup-erase k j m)

  pub mem-keys-erase :
      (k j : Text) (m : List (Text × V))
      → mem j (keys (erase k m)) ≡ (if text_eq k j then false else mem j (keys m))
  unfolding erase mem
  mem-keys-erase k j [] = ground arith
  mem-keys-erase k j ((i, w) ∷ m) =
      ground (arith, text_eq_iff k j, text_eq_iff i k, text_eq_iff i j, mem-keys-erase k j m)

  pub mem-keys-insert :
      (k j : Text) (v : V) (m : List (Text × V))
      → mem j (keys (insert k v m)) ≡ text_eq k j || mem j (keys m)
  unfolding insert mem
  mem-keys-insert k j v [] = ground arith
  mem-keys-insert k j v ((i, w) ∷ m) =
      ground (arith, text_eq_iff k j, text_eq_iff i k, text_eq_iff i j, mem-keys-insert k j v m)

  pub erase-Distinct :
      (k : Text) (m : List (Text × V)) → Distinct (keys m) → Distinct (keys (erase k m))
  unfolding erase
  erase-Distinct k [] h = tt
  erase-Distinct k ((i, w) ∷ m) (n, h) =
      ground (arith, erase-Distinct k m h, mem-keys-erase k i m, text_eq_iff k i, text_eq_iff i k)

  pub insert-Distinct :
      (k : Text) (v : V) (m : List (Text × V)) → Distinct (keys m) → Distinct (keys (insert k v m))
  unfolding insert mem
  insert-Distinct k v [] h = (refl, tt)
  insert-Distinct k v ((i, w) ∷ m) (n, h) =
      ground
        (arith, insert-Distinct k v m h, mem-keys-insert k i v m, text_eq_iff k i, text_eq_iff i k)

  abbrev pub is_some : Option V → Bool
  is_some none = false
  is_some (some v) = true

  pub mem-keys : (k : Text) (m : List (Text × V)) → mem k (keys m) ≡ is_some (lookup k m)
  unfolding lookup mem
  mem-keys k [] = refl
  mem-keys k ((i, w) ∷ m) = ground (arith, mem-keys k m)
