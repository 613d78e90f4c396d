-- ===== src/File/Flushed.antt =====
-- `flush` of src/VirtualFile.cpp: when it does nothing, and what it leaves in the cache.
use sql_fuse.Base.{
  Text, [], arith, false, is_empty, lookup, none, refl, some, true, ℕ, ◌∙◌, ◌∷◌, ◌≡◌, ◌≢◌,
}
use sql_fuse.Router.Types.{FileFormat}
use sql_fuse.Router.Layout.{Node, parsed}
use sql_fuse.Cache.Types.{CacheManager}
use sql_fuse.Cache.Valid.{IsValid}
use sql_fuse.Cache.Get.{answer}
use sql_fuse.Cache.Dropped.{Takes, of_table, invalidate_table-Takes}
use sql_fuse.File.Types.{ok, VirtualFile}
use sql_fuse.File.Key.{get_cache_key}
use sql_fuse.File.Keys.{of_table-content}
use sql_fuse.File.Flush.{Handler, Handlers, handle, invalidate_file, finish_flush, flush}

-- A file that has not been written is flushed without a call of the backend.
pub flush_unmodified :
    (h : Handlers) (f : VirtualFile) (c : CacheManager)
    → f.modified ≡ false
    → flush h f c ≡ some (c, f, ok tt)
unfolding flush
flush_unmodified h f c clean = simp clean

-- A handler leaves the cache consistent.
abbrev pub Careful : Handler → Type 0
Careful h = (f : VirtualFile) (c : CacheManager) → IsValid c → IsValid (h f c).0

-- What the cache has forgotten of a table: its files and its rows, in every format.
abbrev pub IsForgotten : Text → Text → ℕ → CacheManager → Type 0
IsForgotten db t later c =
    (id : Text) (fm : FileFormat)
    → fm ≢ FileFormat.none
    → (answer (get_cache_key (parsed (Node.table_file db t fm))) later c ≡ none)
      × (answer (get_cache_key (parsed (Node.table_row_file db t id fm))) later c ≡ none)

answer-none :
    (key : Text) (later : ℕ) (c : CacheManager)
    → lookup key c.cache ≡ none
    → answer key later c ≡ none
answer-none key later c h = rw h (ground arith)

pub Takes-IsForgotten :
    (db t : Text) (later : ℕ) {c c' : CacheManager}
    → t ≢ []
    → Takes (of_table db t) c c'
    → IsForgotten db t later c'
Takes-IsForgotten db t later {c} {c'} n k id fm h =
    let (a, b) = of_table-content db t id fm h n in
    (answer-none _ later c' (k.kept _ ∙ rw a refl), answer-none _ later c' (k.kept _ ∙ rw b refl))

is_empty-ne : (s : Text) → s ≢ [] → is_empty s ≡ false
is_empty-ne [] h = absurd (h refl)
is_empty-ne (b ∷ s) h = refl

invalidate_file-IsForgotten :
    (f : VirtualFile) (later : ℕ) (c : CacheManager)
    → IsValid c
    → f.path.database ≢ []
    → f.path.object_name ≢ []
    → (c' : CacheManager) × (invalidate_file f c ≡ some c')
      × IsValid c'
      × IsForgotten f.path.database f.path.object_name later c'
unfolding invalidate_file
invalidate_file-IsForgotten f later c v d n =
    let (c', e, t) = invalidate_table-Takes f.path.database f.path.object_name c v in
    (
      c',
      rw (is_empty-ne f.path.database d, is_empty-ne f.path.object_name n) e,
      t.valid,
      Takes-IsForgotten f.path.database f.path.object_name later n t,
    )

flush_modified :
    (h : Handlers) (f : VirtualFile) (c : CacheManager)
    → f.modified ≡ true
    → flush h f c
      ≡ finish_flush
          (record f { last_error = (handle h f.path.type f c).1 })
          (handle h f.path.type f c).0
          (handle h f.path.type f c).2
unfolding flush
flush_modified h f c dirty = simp dirty

finish_flush_ok :
    (f : VirtualFile) (c : CacheManager) {c' : CacheManager}
    → invalidate_file f c ≡ some c'
    → finish_flush f c (ok tt) ≡ some (c', record f { modified = false; write_buffer = [] }, ok tt)
unfolding finish_flush
finish_flush_ok f c e = rw e refl

-- The flush of a written file of a table, with a handler that leaves the cache consistent and
-- accepts the buffer, resets the file, and afterwards the cache answers for no file and no row
-- of the table.
pub flush-IsForgotten :
    (h : Handlers) (f : VirtualFile) (c : CacheManager) (later : ℕ)
    → Careful (handle h f.path.type)
    → IsValid c
    → f.modified ≡ true
    → f.path.database ≢ []
    → f.path.object_name ≢ []
    → (handle h f.path.type f c).2 ≡ ok tt
    → (c' : CacheManager) × (f' : VirtualFile) × (flush h f c ≡ some (c', f', ok tt))
      × (f'.modified ≡ false)
      × (f'.write_buffer ≡ [])
      × IsValid c'
      × IsForgotten f.path.database f.path.object_name later c'
flush-IsForgotten h f c later careful v dirty d n accepted =
    let (c₁, message, result) = handle h f.path.type f c in
    let (c', e, v', gone) =
      invalidate_file-IsForgotten (record f { last_error = message }) later c₁ (careful f c v) d
        n in
    (
      c',
      record f { last_error = message; modified = false; write_buffer = [] },
      flush_modified h f c dirty
          ∙ rw accepted (finish_flush_ok (record f { last_error = message }) c₁ e),
      refl,
      refl,
      v',
      gone,
    )
