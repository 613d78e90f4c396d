-- ===== src/Sql/Whole.antt =====
-- Statements without zero bytes.
use sql_fuse.Base.{
  All-append, Bool, Bool-cases, Lacks, List, Text, [], arith, by_if, codes, false, inl, inr, lacks,
  lacks_sound, none, refl, some, suc, text_eq, true, zero, ℕ, ◌++◌, ◌==◌, ◌∷◌, ◌≡◌, ◌≢◌,
}
use sql_fuse.Csv.Types.{SqlValue, RowData}
use sql_fuse.Sql.Statements.{Escaping, literal, value_text}
use sql_fuse.Sql.Escapes.{each_char, double, quoted, escape_dotted}
use sql_fuse.Sql.Names.{find_dot-cases}
use sql_fuse.Sql.Pieces.{Piece, word, identifier, value, text_of}
use sql_fuse.Sql.Meaning.{columns, values, assignments, where_key}

pub each_char-whole :
    (f : ℕ → Text) (s : Text)
    → ((c : ℕ) → c ≢ 0 → Lacks 0 (f c))
    → Lacks 0 s
    → Lacks 0 (each_char f s)
unfolding each_char
each_char-whole f [] k h = tt
each_char-whole f (c ∷ s) k (n, h) = All-append _ (f c) _ (k c n) (each_char-whole f s k h)

pub double-whole : (q c : ℕ) → c ≢ 0 → Lacks 0 (double q c)
double-whole q c n = by_if (Lacks 0) (c == q) (λ _. (n, (n, tt))) (λ _. (n, tt))

pub quoted-whole : (q : ℕ) (s : Text) → q ≢ 0 → Lacks 0 s → Lacks 0 (quoted q s)
unfolding quoted
quoted-whole q s n h =
    (n, All-append _ _ (q ∷ []) (each_char-whole (double q) s (double-whole q) h) (n, tt))

split-whole : (s t : Text) (c : ℕ) → Lacks 0 (s ++ c ∷ t) → Lacks 0 s × Lacks 0 t
split-whole [] t c (n, h) = (tt, h)
split-whole (b ∷ s) t c (n, h) = let (k, l) = split-whole s t c h in ((n, k), l)

pub escape_dotted-whole :
    (q fuel : ℕ) (s : Text) → q ≢ 0 → Lacks 0 s → Lacks 0 (escape_dotted q fuel s)
unfolding escape_dotted
escape_dotted-whole q zero s n h = quoted-whole q s n h
escape_dotted-whole q (suc fuel) s n h = elim (find_dot-cases s) [
  | inl (e, _) ↦ rw (e, escape_dotted) (quoted-whole q s n h)
  | inr (before, after, e, split, _) ↦
      let (k, l) = split-whole before after b'.' (rw split at h) in
      rw (e, escape_dotted)
        (All-append _ (escape_dotted q fuel before) _ (escape_dotted-whole q fuel before n k)
          ((λ d. ground (arith, d)), escape_dotted-whole q fuel after n l))
]

-- The escaping makes no zero bytes.
pub record IsWhole (e : Escaping) : Type 0 where
  pub names : (s : Text) → Lacks 0 s → Lacks 0 (e.escape_identifier s)
  pub texts : (s : Text) → Lacks 0 s → Lacks 0 (e.escape_sql s)

abbrev pub ValueLacks : SqlValue → Type 0
ValueLacks none = Unit
ValueLacks (some v) = Lacks 0 v

-- No name and no value of a row has a zero byte.
abbrev pub RowLacks : RowData → Type 0
RowLacks [] = Unit
RowLacks ((col, val) ∷ row) = Lacks 0 col × (ValueLacks val × RowLacks row)

abbrev pub PiecesLack : List Piece → Type 0
PiecesLack [] = Unit
PiecesLack (word s ∷ ps) = (lacks 0 s ≡ true) × PiecesLack ps
PiecesLack (identifier i ∷ ps) = Lacks 0 i × PiecesLack ps
PiecesLack (value v ∷ ps) = ValueLacks v × PiecesLack ps

pub text_of-whole :
    (e : Escaping) → IsWhole e → (ps : List Piece) → PiecesLack ps → Lacks 0 (text_of e ps)
unfolding value_text literal
text_of-whole e k [] h = tt
text_of-whole e k (word s ∷ ps) (n, h) =
    All-append _ s _ (lacks_sound 0 s n) (text_of-whole e k ps h)
text_of-whole e k (identifier i ∷ ps) (n, h) =
    All-append _ (e.escape_identifier i) _ (k.names i n) (text_of-whole e k ps h)
text_of-whole e k (value none ∷ ps) (n, h) =
    All-append _ (codes "NULL") _ (lacks_sound 0 (codes "NULL") refl) (text_of-whole e k ps h)
text_of-whole e k (value (some v) ∷ ps) (n, h) =
    All-append _ (literal e true v) _
      (
        (λ d. ground (arith, d)),
        All-append _ (e.escape_sql v) _ (k.texts v n) ((λ d. ground (arith, d)), tt),
      )
      (text_of-whole e k ps h)

pub columns-Lack :
    (first : Bool) (row : RowData) (ps : List Piece)
    → RowLacks row
    → PiecesLack ps
    → PiecesLack (columns first row ++ ps)
columns-Lack first [] ps h k = k
columns-Lack true ((col, val) ∷ row) ps (n, (v, h)) k = (n, columns-Lack false row ps h k)
columns-Lack false ((col, val) ∷ row) ps (n, (v, h)) k = (refl, (n, columns-Lack false row ps h k))

pub values-Lack :
    (first : Bool) (row : RowData) (ps : List Piece)
    → RowLacks row
    → PiecesLack ps
    → PiecesLack (values first row ++ ps)
values-Lack first [] ps h k = k
values-Lack true ((col, val) ∷ row) ps (n, (v, h)) k = (v, values-Lack false row ps h k)
values-Lack false ((col, val) ∷ row) ps (n, (v, h)) k = (refl, (v, values-Lack false row ps h k))

pub assignments-Lack :
    (key : Text) (first : Bool) (row : RowData) (ps : List Piece)
    → RowLacks row
    → PiecesLack ps
    → PiecesLack (assignments key first row ++ ps)
assignments-Lack key first [] ps h k = k
assignments-Lack key true ((col, val) ∷ row) ps (n, (v, h)) k =
    elim (Bool-cases (text_eq col key)) [
      | inl e ↦ rw e (assignments-Lack key true row ps h k)
      | inr e ↦ rw e (n, (refl, (v, assignments-Lack key false row ps h k)))
    ]
assignments-Lack key false ((col, val) ∷ row) ps (n, (v, h)) k =
    elim (Bool-cases (text_eq col key)) [
      | inl e ↦ rw e (assignments-Lack key false row ps h k)
      | inr e ↦ rw e (refl, (n, (refl, (v, assignments-Lack key false row ps h k))))
    ]

pub where_key-Lack : (key v : Text) → Lacks 0 key → Lacks 0 v → PiecesLack (where_key key v)
where_key-Lack key v n m = (refl, (n, (refl, (m, tt))))
