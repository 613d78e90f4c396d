-- ===== src/Router/Samples.antt =====
-- Names for the tests: a database, and a table without an extension.
use sql_fuse.Base.{
  Text, ap, arith, codes, false, is_empty, lacks, lacks_sound, refl, text_eq, text_ne_sound, true,
  ◌≡◌, ◌≢◌,
}
use sql_fuse.Router.Types.{FileFormat}
use sql_fuse.Router.Names.{detect_format}
use sql_fuse.Router.Split.{IsPart}
use sql_fuse.Router.Layout.{IsDatabase, IsPlain}

pub part : (s : Text) → is_empty s ≡ false → lacks b'/' s ≡ true → IsPart s
part s n l = (λ e. absurd (ground (arith, ap is_empty e, n)), lacks_sound b'/' s l)

pub shop-IsDatabase : IsDatabase (codes "shop")
unfolding text_eq
shop-IsDatabase = (
  part (codes "shop") refl refl,
  text_ne_sound (codes "shop") (codes ".server_info") refl,
  text_ne_sound (codes "shop") (codes ".users") refl,
  text_ne_sound (codes "shop") (codes ".variables") refl,
)

pub users-IsPlain : IsPlain (codes "users")
unfolding detect_format
users-IsPlain = (part (codes "users") refl refl, refl)

pub not-none : FileFormat.json ≢ FileFormat.none
not-none e = cc
