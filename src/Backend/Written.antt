-- ===== src/Backend/Written.antt =====
-- What the write handlers leave in the database.
use sql_fuse.Base.{
  List, Option-cases, Text, [], ap, append-nil, append_assoc, if◌then◌else◌, inl, inr, none, refl,
  some, ◌++◌, ◌∙◌, ◌∷◌, ◌≡◌, ◌⊎◌,
}
use sql_fuse.Csv.Types.{RowData}
use sql_fuse.Router.Types.{ParsedPath}
use sql_fuse.File.Types.{ok}
use sql_fuse.Backend.Types.{Event, executed, committed, DbError, Database, Dialect, Written}
use sql_fuse.Backend.Write.{insert_rows, finish_write, refused}

-- The statements of some rows, one after another.
abbrev pub statements : Dialect → ParsedPath → List RowData → List Event
statements d path [] = []
statements d path (row ∷ rows) = executed (d.insert_row path row) ∷ statements d path rows

-- Each of the rows is accepted in its turn.
abbrev pub Accepts : Dialect → Database → ParsedPath → List Event → List RowData → Type 0
Accepts d db path history [] = Unit
Accepts d db path history (row ∷ rows) =
    (db.refuses history (d.insert_row path row) ≡ none)
    × Accepts d db path (history ++ executed (d.insert_row path row) ∷ []) rows

-- What a write leaves that went through: the statements, a commit where the database wants one, and
-- success.
abbrev pub finished : Dialect → List Event → Text → Written
finished d history last_error = record {
  history = if d.commits then history ++ committed ∷ [] else history;
  last_error = last_error;
  reply = ok tt;
}

-- What a write leaves that a statement stopped.
abbrev pub stopped : Dialect → List Event → DbError → Written
stopped d history e = record { history = history; last_error = e.message; reply = d.error_of e }

module _ (d : Dialect) (db : Database) (path : ParsedPath) (last_error : Text) where
  pub insert_rows-Accepts :
      (rows : List RowData) (history : List Event)
      → Accepts d db path history rows
      → insert_rows d db path rows history last_error
        ≡ finished d (history ++ statements d path rows) last_error
  unfolding insert_rows finish_write
  insert_rows-Accepts [] history h = rw append-nil refl
  insert_rows-Accepts (row ∷ rows) history (h, k) = rw h (
      insert_rows-Accepts rows (history ++ executed (d.insert_row path row) ∷ []) k
      ∙ ap (λ h. finished d h last_error) (append_assoc history _ (statements d path rows)))

  -- The loop of a table write, begun after some history, either has every row accepted by the
  -- database, and finishes with all the statements, or stops at the first row that is refused:
  -- the statements of the rows before it stay executed, no commit follows, and the error is
  -- reported.
  pub insert_rows-cases :
      (rows : List RowData) (history : List Event)
      → (Accepts d db path history rows
          × (insert_rows d db path rows history last_error
              ≡ finished d (history ++ statements d path rows) last_error))
        ⊎ ((before : List RowData) × (row : RowData) × (after : List RowData) × (e : DbError)
            × (rows ≡ before ++ row ∷ after)
            × Accepts d db path history before
            × (db.refuses (history ++ statements d path before) (d.insert_row path row) ≡ some e)
            × (insert_rows d db path rows history last_error
                ≡ stopped d (history ++ statements d path before) e))
  unfolding insert_rows refused
  insert_rows-cases [] history = inl (tt, insert_rows-Accepts [] history tt)
  insert_rows-cases (row ∷ rows) history =
      elim (Option-cases (db.refuses history (d.insert_row path row))) [
        | inr (e, h) ↦ inr ([], row, rows, e, refl, tt, rw append-nil h, rw h (rw append-nil refl))
        | inl h ↦ elim (insert_rows-cases rows (history ++ executed (d.insert_row path row) ∷ [])) [
          | inl (k, same) ↦ inl ((h, k), insert_rows-Accepts (row ∷ rows) history (h, k))
          | inr (before, stop, after, e, split, k, denied, same) ↦ inr (
            row ∷ before,
            stop,
            after,
            e,
            ap (◌∷◌ row) split,
            (h, k),
            rw append_assoc at denied,
            rw h (same ∙ rw append_assoc refl),
          )
        ]
      ]
