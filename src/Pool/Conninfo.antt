-- ===== src/Pool/Conninfo.antt =====
-- How libpq reads a connection string, after its documentation: settings with blanks between them,
-- each a keyword, an equals sign and a value; a value may be quoted, and a backslash takes the next
-- byte as it is.
use sql_fuse.Base.{List, Option, Text, [], if◌then◌else◌, none, some, ℕ, ◌++◌, ◌==◌, ◌∷◌}
use sql_fuse.Schema.Server.{is_space}

pub data Reading : Type 0 where
  between broken : Reading
  in_key after_key at_value : Text → Reading
  in_value in_quotes escapes escapes_quoted : Text → Text → Reading

abbrev pub Settings : Type 0
Settings = List (Text × Text)

unfoldable pub next : Reading → ℕ → Reading
next between c = if is_space c then between else in_key (c ∷ [])
next (in_key k) c =
    if c == b'=' then at_value k else if is_space c then after_key k else in_key (k ++ c ∷ [])
next (after_key k) c = if c == b'=' then at_value k else if is_space c then after_key k else broken
next broken c = broken
next (at_value k) c =
    if is_space c
    then at_value k
    else if c == b'\''
    then in_quotes k []
    else if c == b'\\'
    then escapes k []
    else in_value k (c ∷ [])
next (in_value k v) c =
    if is_space c then between else if c == b'\\' then escapes k v else in_value k (v ++ c ∷ [])
next (in_quotes k v) c =
    if c == b'\''
    then between
    else if c == b'\\'
    then escapes_quoted k v
    else in_quotes k (v ++ c ∷ [])
next (escapes k v) c = in_value k (v ++ c ∷ [])
next (escapes_quoted k v) c = in_quotes k (v ++ c ∷ [])

-- What a byte ends.
unfoldable pub ended : Reading → ℕ → Settings
ended (in_value k v) c = if is_space c then (k, v) ∷ [] else []
ended (in_quotes k v) c = if c == b'\'' then (k, v) ∷ [] else []
ended _ c = []

-- Some settings and those after them.
abbrev pub after : Settings → Option Settings → Option Settings
after l none = none
after l (some rest) = some (l ++ rest)

unfoldable pub read : Reading → Text → Option Settings
unfolding next ended
read between [] = some []
read (at_value k) [] = some ((k, []) ∷ [])
read (in_value k v) [] = some ((k, v) ∷ [])
read (escapes k v) [] = some ((k, v) ∷ [])
read _ [] = none
read r (c ∷ s) = after (ended r c) (read (next r c) s)
