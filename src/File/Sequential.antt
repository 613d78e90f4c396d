-- ===== src/File/Sequential.antt =====
-- A file that is written from its start to its end, piece after piece, as `cp` or an editor does it
-- through `write` (src/VirtualFile.cpp).
use mathlib.Core.List.{flatten}
use sql_fuse.Base.{
  Bool-cases, List, Text, [], append-nil, append_assoc, arith, drop_of_length-le, false, inl, inr,
  length, ltb, sym, take, take-append, take_of_length-le, ℕ, ◌++◌, ◌+◌, ◌∙◌, ◌∷◌, ◌≡◌, ◌≤◌,
}
use sql_fuse.Router.Types.{is_read_only}
use sql_fuse.File.Types.{VirtualFile}
use sql_fuse.File.Buffer.{resize, overwrite, grow, write}
use sql_fuse.File.Bytes.{length-resize}

-- Each piece goes where the one before it ended.
pub write_pieces : List Text → VirtualFile → VirtualFile
write_pieces [] f = f
write_pieces (piece ∷ pieces) f = write_pieces pieces (write piece (length f.write_buffer) f).0

take-grow : (n : ℕ) (s : Text) → length s ≤ n → take (length s) (grow n s) ≡ s
unfolding grow resize
take-grow n s h = elim (Bool-cases (ltb (length s) n)) [
  | inl e ↦ rw (e, take_of_length-le n s h) (take-append s _)
  | inr e ↦ rw e (take_of_length-le (length s) s (omega arith))
]

length-grow_eq : (n : ℕ) (s : Text) → length s ≤ n → length (grow n s) ≡ n
unfolding grow
length-grow_eq n s h = ground (arith, length-resize n s)

-- A write at the end of the buffer appends.
overwrite-grow :
    (bytes s : Text) → overwrite (length s) bytes (grow (length s + length bytes) s) ≡ s ++ bytes
unfolding overwrite
overwrite-grow bytes s =
    let n = length s + length bytes in
    let full : length (grow n s) ≡ n = length-grow_eq n s (omega arith) in
    rw (take-grow n s (omega arith), drop_of_length-le n (grow n s) (omega arith), append-nil)

write-append :
    (piece : Text) (f : VirtualFile)
    → is_read_only f.path ≡ false
    → (write piece (length f.write_buffer) f).0.write_buffer ≡ f.write_buffer ++ piece
unfolding write
write-append piece f writable = simp writable (overwrite-grow piece f.write_buffer)

write-path : (bytes : Text) (offset : ℕ) (f : VirtualFile) → (write bytes offset f).0.path ≡ f.path
unfolding write
write-path bytes offset f = ground arith

-- Writing the pieces of a text one after another to a writable file, each at the end of the
-- buffer, gives the buffer that text, behind what it held.
pub write_pieces-flatten :
    (pieces : List Text) (f : VirtualFile)
    → is_read_only f.path ≡ false
    → (write_pieces pieces f).write_buffer ≡ f.write_buffer ++ flatten pieces
unfolding write_pieces flatten
write_pieces-flatten [] f writable = sym (append-nil f.write_buffer)
write_pieces-flatten (piece ∷ pieces) f writable =
    let f' = (write piece (length f.write_buffer) f).0 in
    let still : is_read_only f'.path ≡ false =
      rw (write-path piece (length f.write_buffer) f) writable in
    write_pieces-flatten pieces f' still
    ∙ rw (write-append piece f writable) (append_assoc f.write_buffer piece (flatten pieces))
