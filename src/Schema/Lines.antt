-- ===== src/Schema/Lines.antt =====
-- The lists of names as lines: what is written is read back.
use sql_fuse.Base.{
  ==-ne, All, Lacks, List, Text, [], append-nil, append_assoc, false, is_empty, lacks, refl, ◌++◌,
  ◌∙◌, ◌∷◌, ◌≡◌,
}
use sql_fuse.Schema.Cached.{join_lines, lines_from, lines_of, add_line}

-- A name that is one line: not empty, and without a line feed.
abbrev pub IsLine : Text → Type 0
IsLine name = (is_empty name ≡ false) × Lacks b'\n' name

lines_from-line :
    (line s t : Text)
    → Lacks b'\n' s
    → lines_from line (s ++ b'\n' ∷ t) ≡ add_line (line ++ s) (lines_from [] t)
unfolding lines_from
lines_from-line line [] t h = rw append-nil refl
lines_from-line line (c ∷ s) t (n, h) =
    rw (==-ne c b'\n' n) (lines_from-line (line ++ c ∷ []) s t h ∙ rw append_assoc refl)

pub lines_of-join_lines :
    (names : List Text) → All IsLine names → lines_of (join_lines names) ≡ names
unfolding join_lines lines_from
lines_of-join_lines [] h = refl
lines_of-join_lines (name ∷ names) ((full, lacks), h) =
    lines_from-line [] name (join_lines names) lacks ∙ rw (full, lines_of-join_lines names h) refl
