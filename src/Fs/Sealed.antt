-- ===== src/Fs/Sealed.antt =====
-- The single calls of src/SQLFuseFS.cpp on a file system that is mounted read-only.
use sql_fuse.Base.{
  Bool-cases, List, Option, Text, arith, false, inl, inr, none, refl, some, true, ℕ, ◌∙◌, ◌≡◌,
}
use sql_fuse.Router.Types.{NodeType, FileFormat, ParsedPath}
use sql_fuse.Router.{parse}
use sql_fuse.Cache.Types.{CacheManager}
use sql_fuse.Cache.Valid.{IsValid}
use sql_fuse.File.Types.{VirtualFile, Reply, ok, err, erofs, new_file}
use sql_fuse.File.Load.{Generators, generate, get_content}
use sql_fuse.File.Loads.{Keeps, load_content-shown}
use sql_fuse.File.Flush.{Handlers}
use sql_fuse.Fs.Types.{HandleManager, SqlFuseFs}
use sql_fuse.Fs.Handles
use sql_fuse.Fs.HandleLaws.{find_handle-set_handle, find_handle-erase_handle}
use sql_fuse.Fs.Calls.{
  AccessMode, open_handle, open_file, create, slice, read_file, write, truncate, flush_file, flush,
}
use sql_fuse.Fs.Runs.{Call, Lookups, Backend, step}
use sql_fuse.Backend.Types.{Event}

-- No open file has been written.
abbrev pub IsClean : HandleManager → Type 0
IsClean m = (h : ℕ) (f : VirtualFile) → Handles.get h m ≡ some f → f.modified ≡ false

-- A read-only file system whose open files are as they were read.
pub record IsSealed (fs : SqlFuseFs) : Type 0 where
  pub read_only : fs.security.read_only ≡ true
  pub clean : IsClean fs.files
  pub valid : IsValid fs.cache

pub get_content-IsValid :
    (g : Generators) (now : ℕ) (f : VirtualFile) (c : CacheManager)
    → Keeps (generate g f.path.format f.path.type)
    → IsValid c
    → (c' : CacheManager) × (f' : VirtualFile) × (get_content g now f c ≡ some (c', f'))
      × IsValid c'
      × (f'.modified ≡ f.modified)
unfolding get_content
get_content-IsValid g now f c keeps v = elim (Bool-cases f.content_loaded) [
  | inl h ↦ (c, f, simp h, v, refl)
  | inr h ↦
      let (_, c', f', e, v', _, _, same) = load_content-shown g now f c keeps v in
      (c', f', simp (h, e), v', same)
]

some_inj : {f g : VirtualFile} → some f ≡ some g → f ≡ g
some_inj {f} {g} e = cc

put_back-IsClean :
    (h : ℕ) (f : VirtualFile) (m : HandleManager)
    → IsClean m
    → f.modified ≡ false
    → IsClean (Handles.put_back h f m)
unfolding Handles.put_back Handles.get
put_back-IsClean h f m k clean i f' e =
    ground (arith, find_handle-set_handle i h f m.handles, k i f')

create-IsClean : (p : ParsedPath) (m : HandleManager) → IsClean m → IsClean (Handles.create p m).0
unfolding Handles.create Handles.get
create-IsClean p m k i f' e =
    ground (arith, find_handle-set_handle i m.next_handle (new_file p) m.handles, k i f')

pub release-IsClean : (h : ℕ) (m : HandleManager) → IsClean m → IsClean (Handles.release h m)
unfolding Handles.release Handles.get
release-IsClean h m k i f' e = ground (arith, find_handle-erase_handle i h m.handles, k i f')

abbrev pub KeepsAll : Generators → Type 0
KeepsAll g = (format : FileFormat) (type : NodeType) → Keeps (generate g format type)

-- The lookups of the schema manager keep the cache consistent.
abbrev pub KeepsCache : Lookups → Type 0
KeepsCache q = (path : Text) (c : CacheManager) → IsValid c → IsValid (q path c)

-- The state after a call, which is the same whatever the backend would do, with nothing sent to the
-- database.
abbrev pub IsSealedBy : Generators → Lookups → Call → SqlFuseFs → List Event → Type 0
IsSealedBy g q c fs history =
    (fs' : SqlFuseFs) × ((b : Backend)
      → step g q b c (record { fs = fs; history = history })
        ≡ some (record { fs = fs'; history = history }))
    × IsSealed fs'

open_handle-IsSealed :
    (p : ParsedPath) (fs : SqlFuseFs) → IsSealed fs → IsSealed (open_handle p fs).0
unfolding open_handle
open_handle-IsSealed p fs k = record {
  read_only = k.read_only;
  clean = create-IsClean p fs.files k.clean;
  valid = k.valid;
}

pub open_file-IsSealed :
    (path : Text) (mode : AccessMode) (fs : SqlFuseFs)
    → IsSealed fs
    → IsSealed (open_file path mode fs).0
unfolding open_file
open_file-IsSealed path mode fs k = ground (arith, k, open_handle-IsSealed (parse path) fs k)

pub create-erofs :
    (path : Text) (fs : SqlFuseFs) → fs.security.read_only ≡ true → create path fs ≡ (fs, err erofs)
unfolding create
create-erofs path fs h = simp h

pub write-erofs :
    (bytes : Text) (offset h : ℕ) (fs : SqlFuseFs)
    → fs.security.read_only ≡ true
    → write bytes offset h fs ≡ (fs, err erofs)
unfolding write
write-erofs bytes offset h fs r = simp r

pub truncate-erofs :
    (size h : ℕ) (fs : SqlFuseFs)
    → fs.security.read_only ≡ true
    → truncate size h fs ≡ (fs, err erofs)
unfolding truncate
truncate-erofs size h fs r = simp r

flush_file_clean :
    (w : Handlers) (h : ℕ) (fs : SqlFuseFs) (f : Option VirtualFile)
    → ((f' : VirtualFile) → f ≡ some f' → f'.modified ≡ false)
    → flush_file w h fs f ≡ some (fs, ok tt)
unfolding flush_file
flush_file_clean w h fs none k = refl
flush_file_clean w h fs (some f) k = simp (k f refl)

pub flush_clean :
    (w : Handlers) (h : ℕ) (fs : SqlFuseFs) → IsSealed fs → flush w h fs ≡ some (fs, ok tt)
unfolding flush
flush_clean w h fs k = flush_file_clean w h fs (Handles.get h fs.files) (k.clean h)

pub read_file-IsSealed :
    (g : Generators) (h size offset now : ℕ) (fs : SqlFuseFs) (f : Option VirtualFile)
    → KeepsAll g
    → IsSealed fs
    → ((f' : VirtualFile) → f ≡ some f' → f'.modified ≡ false)
    → (fs' : SqlFuseFs) × (result : Reply Text) × (read_file g h size offset now fs f
        ≡ some (fs', result))
      × IsSealed fs'
unfolding read_file
read_file-IsSealed g h size offset now fs none keeps k clean = (fs, _, refl, k)
read_file-IsSealed g h size offset now fs (some f) keeps k clean =
    let (c, f', e, v, same) =
      get_content-IsValid g now f fs.cache (keeps f.path.format f.path.type) k.valid in
    (
      record fs { cache = c; files = Handles.put_back h f' fs.files },
      ok (slice size offset f'.content),
      rw e refl,
      record {
        read_only = k.read_only;
        clean = put_back-IsClean h f' fs.files k.clean (same ∙ clean f refl);
        valid = v;
      },
    )
