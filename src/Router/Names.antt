-- ===== src/Router/Names.antt =====
-- `detectFormat` and `stripExtension` of src/PathRouter.cpp: the part of a file name after its last
-- dot, and the part before it.
use sql_fuse.Base.{
  ==-ne, ==-refl, Lacks, Option, Text, [], arith, codes, drop, if◌then◌else◌, length, none, refl,
  some, suc, take, take-append, ℕ, ◌++◌, ◌==◌, ◌∷◌, ◌≡◌, ◌≢◌,
}
use sql_fuse.Router.Types.{FileFormat, format_to_extension, extension_to_format}

-- `filename.rfind(c)`.
unfoldable pub rfind : ℕ → Text → Option ℕ
rfind c [] = none
rfind c (x ∷ s) = elim (rfind c s) [
  | some i ↦ some (suc i)
  | none ↦ if x == c then some 0 else none
]

unfoldable pub detect_format : Text → FileFormat
unfolding rfind extension_to_format
detect_format filename = elim (rfind b'.' filename) [
  | none ↦ FileFormat.none
  | some dot_pos ↦ extension_to_format (drop (suc dot_pos) filename)
]

unfoldable pub strip_extension : Text → Text
unfolding rfind
strip_extension filename = elim (rfind b'.' filename) [
  | none ↦ filename
  | some dot_pos ↦ take dot_pos filename
]

rfind_absent : (c : ℕ) (s : Text) → Lacks c s → rfind c s ≡ none
unfolding rfind
rfind_absent c [] h = refl
rfind_absent c (x ∷ s) (n, h) = rw (rfind_absent c s h, ==-ne x c n)

-- The last dot of `s.e` is the one before `e`, if `e` has none.
pub rfind-append : (c : ℕ) (s e : Text) → Lacks c e → rfind c (s ++ c ∷ e) ≡ some (length s)
unfolding rfind
rfind-append c [] e h = rw (rfind_absent c e h, ==-refl c)
rfind-append c (x ∷ s) e h = rw (rfind-append c s e h)

drop_past-append : (s t : Text) (x : ℕ) → drop (suc (length s)) (s ++ x ∷ t) ≡ t
drop_past-append [] t x = refl
drop_past-append (y ∷ s) t x = drop_past-append s t x

detect_format-append :
    (s e : Text) → Lacks b'.' e → detect_format (s ++ b'.' ∷ e) ≡ extension_to_format e
unfolding detect_format
detect_format-append s e h =
    rw (rfind-append b'.' s e h, detect_format) (rw (drop_past-append s e b'.'))

strip_extension-append : (s e : Text) → Lacks b'.' e → strip_extension (s ++ b'.' ∷ e) ≡ s
unfolding strip_extension
strip_extension-append s e h =
    rw (rfind-append b'.' s e h, strip_extension) (take-append s (b'.' ∷ e))

-- A name with the extension of a format is read as that format.
pub detect_format-format_to_extension :
    (s : Text) (f : FileFormat)
    → f ≢ FileFormat.none
    → detect_format (s ++ format_to_extension f) ≡ f
unfolding format_to_extension extension_to_format
detect_format-format_to_extension s FileFormat.csv h =
    detect_format-append s (codes "csv") (omega arith)
detect_format-format_to_extension s FileFormat.json h =
    detect_format-append s (codes "json") (omega arith)
detect_format-format_to_extension s FileFormat.sql h =
    detect_format-append s (codes "sql") (omega arith)
detect_format-format_to_extension s FileFormat.none h = absurd (h refl)

-- ... and its name without the extension is what was there before it was added.
pub strip_extension-format_to_extension :
    (s : Text) (f : FileFormat)
    → f ≢ FileFormat.none
    → strip_extension (s ++ format_to_extension f) ≡ s
unfolding format_to_extension
strip_extension-format_to_extension s FileFormat.csv h =
    strip_extension-append s (codes "csv") (omega arith)
strip_extension-format_to_extension s FileFormat.json h =
    strip_extension-append s (codes "json") (omega arith)
strip_extension-format_to_extension s FileFormat.sql h =
    strip_extension-append s (codes "sql") (omega arith)
strip_extension-format_to_extension s FileFormat.none h = absurd (h refl)
