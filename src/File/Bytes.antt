-- ===== src/File/Bytes.antt =====
-- What the write buffer holds after `write` and `truncate` (src/VirtualFile.cpp), byte by byte.
use sql_fuse.Base.{
  Bool, Bool-cases, Text, arith, drop, false, get_or, get_or-append_left, get_or-append_right,
  get_or-replicate, get_or-take, get_or_past, if◌then◌else◌, inl, inr, le_of_ltb-false, leb, length,
  length-append, length-drop, length-replicate, length-take, ltb, ltb→lt, refl, replicate, sym,
  take, ℕ, ◌&&◌, ◌++◌, ◌+◌, ◌-◌, ◌∙◌, ◌≡◌, ◌≤◌,
}
use sql_fuse.Router.Types.{is_read_only}
use sql_fuse.File.Types.{ok, VirtualFile}
use sql_fuse.File.Buffer.{resize, overwrite, truncate}

-- The byte at a position, and 0 past the end.
abbrev pub byte_at : Text → ℕ → ℕ
byte_at s i = get_or s i 0

pub length-resize : (n : ℕ) (s : Text) → length (resize n s) ≡ n
unfolding resize
length-resize n s = omega (
  arith,
  length-append (take n s) (replicate (n - length s) 0),
  length-take n s,
  length-replicate {A = ℕ} (n - length s) 0,
)

byte_at-resize :
    (n : ℕ) (s : Text) (i : ℕ) → byte_at (resize n s) i ≡ (if ltb i n then byte_at s i else 0)
byte_at-resize n s i = elim (Bool-cases (ltb i n)) [
  | inr past ↦
      rw past
        (get_or_past (resize n s) i 0 (omega (arith, length-resize n s, le_of_ltb-false i n past)))
  | inl within ↦ rw within (elim (Bool-cases (ltb i (length s))) [
    | inl old ↦
        unfold resize in
        get_or-append_left (take n s) _ i 0
          (omega (arith, length-take n s, ltb→lt i n within, ltb→lt i _ old))
        ∙ get_or-take n s i 0 (ltb→lt i n within)
    | inr new ↦
        unfold resize in
        get_or-append_right (take n s) _ i 0
          (omega (arith, length-take n s, le_of_ltb-false i _ new))
        ∙ (get_or-replicate (n - length s) _ 0 ∙ sym (get_or_past s i 0 (le_of_ltb-false i _ new)))
  ])
]

-- The positions that a write covers.
abbrev pub covers : ℕ → ℕ → ℕ → Bool
covers offset n i = leb offset i && ltb i (offset + n)

module _ (offset : ℕ) (bytes s : Text) (fits : offset + length bytes ≤ length s) where
  length-overwrite : length (overwrite offset bytes s) ≡ length s
  unfolding overwrite
  length-overwrite = omega (
    arith,
    length-append (take offset s) (bytes ++ drop (offset + length bytes) s),
    length-append bytes (drop (offset + length bytes) s),
    length-take offset s,
    length-drop (offset + length bytes) s,
  )

-- Truncating a writable file leaves exactly that many bytes: the old ones, then zeros.
byte_at-truncate :
    (size : ℕ) (f : VirtualFile)
    → is_read_only f.path ≡ false
    → let (f', result) = truncate size f in
      (result ≡ ok tt)
      × (length f'.write_buffer ≡ size)
      × ((i : ℕ) → byte_at f'.write_buffer i ≡ (if ltb i size then byte_at f.write_buffer i else 0))
unfolding truncate
byte_at-truncate size f writable =
    simp writable
      (refl, length-resize size f.write_buffer, λ i. byte_at-resize size f.write_buffer i)
