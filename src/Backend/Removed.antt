-- ===== src/Backend/Removed.antt =====
-- What `unlink` of src/SQLFuseFS.cpp leaves behind.
use sql_fuse.Base.{
  Bool, List, Option, Text, [], by_if, false, is_empty, none, not, refl, some, true, ℕ, ◌%◌, ◌++◌,
  ◌==◌, ◌^◌, ◌≡◌, ◌≢◌,
}
use sql_fuse.Cache.Types.{CacheManager}
use sql_fuse.Cache.Valid.{IsValid}
use sql_fuse.Cache.Dropped.{invalidate_table-Takes}
use sql_fuse.Router.Types.{ParsedPath}
use sql_fuse.Router.{parse}
use sql_fuse.File.Types.{Errno, Reply, ok, err, enoent, eio, einval, erofs, eacces}
use sql_fuse.File.Flushed.{IsForgotten, Takes-IsForgotten}
use sql_fuse.Errors.Codes.{MysqlCodes}
use sql_fuse.Backend.Types.{Event, Database, DbError, Attempt, gives, threw}
use sql_fuse.Backend.Unlink.{
  delete_sql, delete_error, deleted, Unlinked, Reach, is_row_file, unlink, with_key, unlink_row,
  delete_row, finish_unlink, stays,
}

module _ (known : MysqlCodes) (reach : Reach) (path key : Text) (db : Database)
    (history : List Event) (c : CacheManager) where
  abbrev sql : Text
  sql = delete_sql reach.type (parse path) key

  -- `unlink` of a row file of a table with a name and a primary key, on a file system that is
  -- not read-only, whose database accepts the DELETE and changes a row, with a consistent cache:
  -- it runs no erase through a missing iterator, sends the DELETE, and for Oracle a commit, and
  -- succeeds. Afterwards the cache is consistent and answers for no file and no row of the
  -- table.
  pub unlink-IsForgotten :
      (later : ℕ)
      → IsValid c
      → is_row_file (parse path).type ≡ true
      → (parse path).object_name ≢ []
      → reach.primary_key (parse path).database (parse path).object_name ≡ gives (some key)
      → is_empty key ≡ false
      → reach.pool ≡ some (gives db)
      → db.refuses history sql ≡ none
      → (reach.affected_rows history sql % 2 ^ 32 == 0) ≡ false
      → (c' : CacheManager) × (unlink known reach false path history c
          ≡ some
              (record { history = history ++ deleted reach.type sql; cache = c'; reply = ok tt }))
        × IsValid c'
        × IsForgotten (parse path).database (parse path).object_name later c'
  unfolding unlink with_key unlink_row delete_row finish_unlink
  unlink-IsForgotten later v row named found full pool accepted changed =
      let (c', e, t) = invalidate_table-Takes (parse path).database (parse path).object_name c v in
      (
        c',
        simp (row, found, full, pool, accepted, changed, e),
        t.valid,
        Takes-IsForgotten (parse path).database (parse path).object_name later named t,
      )

-- A result that leaves the cache as it was where it is an error.
abbrev Fine : CacheManager → Option Unlinked → Type 0
Fine c o =
    (u : Unlinked) × (o ≡ some u) × IsValid u.cache × ((e : Errno) → u.reply ≡ err e → u.cache ≡ c)

stays-Fine :
    (history : List Event) (c : CacheManager) (reply : Reply (Unit {0}))
    → IsValid c
    → Fine c (stays history c reply)
stays-Fine history c reply v =
    (record { history = history; cache = c; reply = reply }, refl, v, λ e h. refl)

finish_unlink-Fine :
    (path : ParsedPath) (affected : ℕ) (history : List Event) (c : CacheManager)
    → IsValid c
    → Fine c (finish_unlink path affected history c)
unfolding finish_unlink
finish_unlink-Fine path affected history c v =
    by_if (Fine c) (affected % 2 ^ 32 == 0) (λ gone. stays-Fine history c (err enoent) v)
      (λ there.
        let (c', e, t) = invalidate_table-Takes path.database path.object_name c v in
        (
          record { history = history; cache = c'; reply = ok tt },
          rw e refl,
          t.valid,
          λ e h. absurd cc,
        ))

delete_row-Fine :
    (known : MysqlCodes) (reach : Reach) (path : ParsedPath) (key : Text) (history : List Event)
    (c : CacheManager) (outcome : Option DbError)
    → IsValid c
    → Fine c (delete_row known reach path key history c outcome)
unfolding delete_row
delete_row-Fine known reach path key history c (some e) v =
    stays-Fine history c (delete_error known reach.type e) v
delete_row-Fine known reach path key history c none v = finish_unlink-Fine path _ _ c v

unlink_row-Fine :
    (known : MysqlCodes) (reach : Reach) (path : ParsedPath) (history : List Event)
    (c : CacheManager) (key : Text) (pool : Option (Attempt Database))
    → IsValid c
    → Fine c (unlink_row known reach path history c key pool)
unfolding unlink_row
unlink_row-Fine known reach path history c key none v = stays-Fine history c (err eio) v
unlink_row-Fine known reach path history c key (some (threw what)) v =
    stays-Fine history c (err eio) v
unlink_row-Fine known reach path history c key (some (gives db)) v =
    delete_row-Fine known reach path key history c _ v

with_key-Fine :
    (known : MysqlCodes) (reach : Reach) (path : ParsedPath) (history : List Event)
    (c : CacheManager) (found : Attempt (Option Text))
    → IsValid c
    → Fine c (with_key known reach path history c found)
unfolding with_key
with_key-Fine known reach path history c (threw what) v = stays-Fine history c (err eio) v
with_key-Fine known reach path history c (gives none) v = stays-Fine history c (err einval) v
with_key-Fine known reach path history c (gives (some key)) v =
    by_if (Fine c) (is_empty key) (λ empty. stays-Fine history c (err einval) v)
      (λ full. unlink_row-Fine known reach path history c key reach.pool v)

pub unlink-kept :
    (known : MysqlCodes) (reach : Reach) (read_only : Bool) (path : Text) (history : List Event)
    (c : CacheManager)
    → IsValid c
    → (u : Unlinked) × (unlink known reach read_only path history c ≡ some u)
      × IsValid u.cache
      × ((e : Errno) → u.reply ≡ err e → u.cache ≡ c)
unfolding unlink
unlink-kept known reach read_only path history c v =
    by_if (Fine c) read_only (λ sealed. stays-Fine history c (err erofs) v)
      (λ writable.
        by_if (Fine c) (not (is_row_file (parse path).type))
          (λ other. stays-Fine history c (err eacces) v)
          (λ row. with_key-Fine known reach (parse path) history c _ v))
