-- ===== src/Errors/Tests.antt =====
-- The modules of `Errors` on inputs.
use sql_fuse.Base.{
  List, [], arith, codes, map, negsuc, none, pos, refl, some, suc, to_string, true, zero, ℕ, ℤ, ◌↔◌,
  ◌∷◌, ◌≡◌,
}
use sql_fuse.File.Types.{einval, eacces}
use sql_fuse.Errors.Samples.{known}
use sql_fuse.Errors.Errno.{mysql_to_errno, oracle_to_errno, is_connection_error, is_retryable}
use sql_fuse.Errors.Message.{get_error_message, get_connection_message, exception_of}
use sql_fuse.Errors.Retry.{wait_of, execute_with_retry}
use sql_fuse.Errors.Context.{Code, reads_current, throws, both, within, guarded, run_code}
use sql_fuse.Errors.Loop.{execute_with_retry-first, Retries}
use sql_fuse.Errors.Classes.{errno_zero}
use sql_fuse.Errors.Scopes.{run_code_lem, reads_of, joined}

-- A deadlock, then a lost connection, then success.
abbrev recovers : ℕ → ℤ
recovers zero = negsuc 1212
recovers (suc zero) = negsuc 2012
recovers (suc (suc n)) = pos 0

recovers_test :
    execute_with_retry known recovers 3
    ≡ some (record { calls = 3; result = some (pos 0); waits = 200 ∷ 400 ∷ [] })
unfolding execute_with_retry is_retryable
recovers_test = refl

-- A negated error number of the system is not one of MySQL's, so it is not tried again.
errno_test :
    execute_with_retry known (λ n. negsuc 109) 3
    ≡ some (record { calls = 1; result = some (negsuc 109); waits = [] })
unfolding execute_with_retry is_retryable
errno_test = refl

never_test :
    execute_with_retry known recovers 0 ≡ some (record { calls = 0; result = none; waits = [] })
unfolding execute_with_retry
never_test = refl

-- The wait that the 25th failure would take is more than 32 bits hold.
overflow_test : (wait_of 24 ≡ 1_677_721_600) × (wait_of 25 ≡ 0)
unfolding wait_of
overflow_test = (refl, refl)

recovers-Retries : Retries known recovers 3 2
unfolding is_retryable
recovers-Retries zero below = refl
recovers-Retries (suc zero) below = refl
recovers-Retries (suc (suc n)) below = absurd (omega arith)

execute_with_retry-first_example :
    (waits : List ℕ) × (execute_with_retry known recovers 3
      ≡ some (record { calls = 3; result = some (pos 0); waits = waits }))
execute_with_retry-first_example =
    execute_with_retry-first known recovers 3 2 (omega arith) recovers-Retries refl

errno_zero_example :
    ((mysql_to_errno known 1064 ≡ none) ↔ (◌≡◌ {A = ℕ} 1064 0))
    × ((oracle_to_errno (negsuc 1016) ≡ none) ↔ (negsuc 1016 ≡ pos 0))
errno_zero_example = errno_zero known 1064 (negsuc 1016)

oracle_to_errno_test : oracle_to_errno (negsuc 1016) ≡ some eacces
unfolding oracle_to_errno
oracle_to_errno_test = refl

mysql_to_errno_test : mysql_to_errno known 1064 ≡ some einval
unfolding mysql_to_errno
mysql_to_errno_test = refl

is_connection_error_test : is_connection_error known 2014 ≡ true
unfolding is_connection_error
is_connection_error_test = refl

get_error_message_test : get_error_message known 1999 ≡ codes "MySQL error 1999"
unfolding get_error_message to_string
get_error_message_test = refl

exception_of_test :
    exception_of known (record { text = some []; number = 1049 })
    ≡ record { message = codes "Unknown database"; error_code = 1049 }
unfolding exception_of get_connection_message get_error_message
exception_of_test = refl

-- A read in two scopes, an exception that leaves both, and a read after it.
abbrev nested : Code
nested =
    both
      (guarded (
        within (codes "open")
          (within (codes "query") (both reads_current (both throws reads_current)))))
      reads_current

run_code_lem_example : run_code nested [] ≡ record {
  current = [];
  seen = map (joined []) (reads_of nested).0;
  finished = (reads_of nested).1;
}
run_code_lem_example = run_code_lem nested []

nested_test :
    run_code nested []
    ≡ record { current = []; seen = codes "open > query" ∷ [] ∷ []; finished = true }
unfolding run_code
nested_test = refl
