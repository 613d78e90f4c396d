-- ===== src/Errors/Scopes.antt =====
-- src/ErrorHandler.cpp: the contexts that nested scopes read.
use sql_fuse.Base.{
  Bool, Bool-cases, List, Text, [], ap, false, if◌then◌else◌, inl, inr, map, refl, true, ◌++◌, ◌∷◌,
  ◌≡◌,
}
use sql_fuse.Errors.Context.{
  Code, reads_current, throws, both, within, guarded, enter_context, next_part, run_code,
}

-- The scopes around each read that is reached, the outermost first, and whether the code goes to
-- its end.
abbrev pub reads_of : Code → List (List Text) × Bool
reads_of reads_current = ([] ∷ [], true)
reads_of throws = ([], false)
reads_of (both first second) =
    let (one, goes) = reads_of first in
    let (two, ends) = reads_of second in if goes then (one ++ two, ends) else (one, false)
reads_of (within context body) = let (one, goes) = reads_of body in (map (◌∷◌ context) one, goes)
reads_of (guarded body) = ((reads_of body).0, true)

-- The names of scopes with ` > ` between them.
abbrev pub joined : Text → List Text → Text
joined current [] = current
joined current (context ∷ scopes) = joined (enter_context current context) scopes

map-map :
    {A B C : Type 0} (f : A → B) (g : B → C) (xs : List A)
    → map g (map f xs) ≡ map (λ x. g (f x)) xs
map-map f g [] = refl
map-map f g (x ∷ xs) = ap (◌∷◌ (g (f x))) (map-map f g xs)

map-append : {A B : Type 0} (f : A → B) (xs ys : List A) → map f (xs ++ ys) ≡ map f xs ++ map f ys
map-append f [] ys = refl
map-append f (x ∷ xs) ys = ap (◌∷◌ (f x)) (map-append f xs ys)

-- Whatever code runs in nested scopes of contexts, the context is afterwards what it was before,
-- exceptions included, and each read sees the names of the scopes around it, joined from the
-- outermost on.
pub run_code_lem :
    (code : Code) (current : Text)
    → run_code code current ≡ record {
      current = current;
      seen = map (joined current) (reads_of code).0;
      finished = (reads_of code).1;
    }
unfolding run_code next_part
run_code_lem reads_current c = refl
run_code_lem throws c = refl
run_code_lem (both f s) c = elim (Bool-cases (reads_of f).1) [
  | inl goes ↦ rw (run_code_lem f c, run_code_lem s c) (simp (goes, map-append))
  | inr thrown ↦ rw (run_code_lem f c) (simp thrown)
]
run_code_lem (within context body) c =
    rw
      (
        run_code_lem body (enter_context c context),
        map-map (◌∷◌ context) (joined c) (reads_of body).0,
      )
      refl
run_code_lem (guarded body) c = rw (run_code_lem body c) refl
