-- ===== src/Errors/Retry.antt =====
-- `executeWithRetry` of include/ErrorHandler.hpp.
use sql_fuse.Base.{
  List, Option, [], codes, if◌then◌else◌, is_zero, ltb, negsuc, none, pos, some, suc, zero, ℕ, ℤ,
  ◌%◌, ◌*◌, ◌++◌, ◌-◌, ◌^◌, ◌∷◌,
}
use sql_fuse.Errors.Codes.{MysqlCodes}
use sql_fuse.Errors.Errno.{is_retryable}

-- `static_cast<unsigned int>(-result)` on 32 bits.
abbrev pub negated : ℤ → ℕ
negated (pos n) = (2 ^ 32 - n % 2 ^ 32) % 2 ^ 32
negated (negsuc n) = suc n % 2 ^ 32

-- What the function returns, or nothing if it never set its `result`, with the number of calls of
-- the operation and the waits in milliseconds.
pub record Attempts : Type 0 where
  pub calls : ℕ
  pub result : Option ℤ
  pub waits : List ℕ

-- `100 * (1 << retries)` on 32 bits, as it wraps around, and the time that `sleep_for` waits for it,
-- which is none where it is negative. From `retries = 25` on the product does not fit, and the
-- behaviour is undefined.
unfoldable pub wait_of : ℕ → ℕ
wait_of retries =
    let product = 100 * (2 ^ retries % 2 ^ 32) % 2 ^ 32 in
    if ltb product (2 ^ 31) then product else 0

unfoldable pub backoff : ℕ → ℕ → List ℕ → List ℕ
unfolding wait_of
backoff max_retries retries waits =
    if ltb retries max_retries then waits ++ wait_of retries ∷ [] else waits

-- A round of the loop for each unit of fuel. The operation is what it returns on its calls, in
-- their order.
unfoldable pub retry_loop : MysqlCodes → (ℕ → ℤ) → ℕ → ℕ → ℕ → Option ℤ → List ℕ → Option Attempts
unfolding backoff
retry_loop codes operation max_retries zero retries result waits = none
retry_loop codes operation max_retries (suc fuel) retries result waits =
    let answer = operation retries in
    let rest =
      retry_loop codes operation max_retries fuel (suc retries) (some answer)
        (backoff max_retries (suc retries) waits) in
    if ltb retries max_retries
    then (if is_zero answer
        then some (record { calls = suc retries; result = some (pos 0); waits = waits })
        else if is_retryable codes (negated answer)
        then rest
        else some (record { calls = suc retries; result = some answer; waits = waits }))
    else some (record { calls = retries; result = result; waits = waits })

unfoldable pub execute_with_retry : MysqlCodes → (ℕ → ℤ) → ℕ → Option Attempts
unfolding retry_loop
execute_with_retry codes operation max_retries =
    retry_loop codes operation max_retries (suc max_retries) 0 none []
