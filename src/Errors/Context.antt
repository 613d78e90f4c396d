-- ===== src/Errors/Context.antt =====
-- `ErrorContext` of src/ErrorHandler.cpp, and the code that runs in its scopes.
use sql_fuse.Base.{Bool, List, Text, [], codes, false, if◌then◌else◌, is_empty, true, ◌++◌, ◌∷◌}

-- The constructor: what `s_currentContext` becomes.
unfoldable pub enter_context : Text → Text → Text
enter_context current context =
    if is_empty current then context else current ++ codes " > " ++ context

-- Code that declares contexts: it reads the current one, throws, runs one part after another, or
-- runs a part in the scope of a context, or in a `try` whose handler does nothing.
pub data Code : Type 0 where
  reads_current throws : Code
  both : Code → Code → Code
  within : Text → Code → Code
  guarded : Code → Code

-- The current context after it, what it read, and whether it went to its end.
pub record Ran : Type 0 where
  pub current : Text
  pub seen : List Text
  pub finished : Bool

unfoldable pub next_part : Ran → Ran → Ran
next_part first second =
    if first.finished
    then record {
      current = second.current;
      seen = first.seen ++ second.seen;
      finished = second.finished;
    }
    else first

-- The destructor runs at the end of the scope, and when an exception leaves it.
unfoldable pub run_code : Code → Text → Ran
unfolding next_part enter_context
run_code reads_current current = record { current = current; seen = current ∷ []; finished = true }
run_code throws current = record { current = current; seen = []; finished = false }
run_code (both first second) current =
    let ran = run_code first current in next_part ran (run_code second ran.current)
run_code (within context body) current =
    let previous = current in
    let ran = run_code body (enter_context current context) in record ran { current = previous }
run_code (guarded body) current = record (run_code body current) { finished = true }
