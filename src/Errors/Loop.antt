-- ===== src/Errors/Loop.antt =====
-- The loop of include/ErrorHandler.hpp: it ends, and what it returns.
use sql_fuse.Base.{
  ==-eq, Bool, Bool-cases, List, Option, [], ap, arith, codes, false, inl, inr, is_zero,
  le_of_ltb-false, ltb, ltb→lt, lt→ltb, negsuc, none, not, pos, refl, some, suc, true, zero, ℕ, ℤ,
  ◌+◌, ◌<◌, ◌||◌, ◌∙◌, ◌≡◌, ◌≤◌,
}
use sql_fuse.Errors.Codes.{MysqlCodes}
use sql_fuse.Errors.Errno.{is_retryable}
use sql_fuse.Errors.Retry.{negated, Attempts, backoff, retry_loop, execute_with_retry}
use sql_fuse.Errors.Waits.{waits_of}

-- The last call decides: every call before it failed in a way that may be tried again.
abbrev pub stops : MysqlCodes → ℤ → Bool
stops codes answer = is_zero answer || not (is_retryable codes (negated answer))

-- The outcome of an operation that is tried: nothing was set without a call, else it is what
-- the last call returned.
abbrev pub last_answer : (ℕ → ℤ) → ℕ → Option ℤ
last_answer operation zero = none
last_answer operation (suc n) = some (operation n)

is_zero_sound : (z : ℤ) → is_zero z ≡ true → z ≡ pos 0
is_zero_sound (pos n) h = ap pos (==-eq n 0 h)
is_zero_sound (negsuc n) h = absurd cc

module _ (codes : MysqlCodes) (operation : ℕ → ℤ) (m : ℕ) where
  retry_loop-stop :
      (fuel k : ℕ) (result : Option ℤ) (waits : List ℕ)
      → k < m
      → stops codes (operation k) ≡ true
      → retry_loop codes operation m (suc fuel) k result waits
        ≡ some (record { calls = suc k; result = some (operation k); waits = waits })
  unfolding retry_loop
  retry_loop-stop fuel k result waits room h =
      rw (lt→ltb k m room) (elim (Bool-cases (is_zero (operation k))) [
        | inl won ↦ simp won (rw (is_zero_sound (operation k) won) refl)
        | inr failed ↦
            let given : is_retryable codes (negated (operation k)) ≡ false =
              ground (arith, h, failed) in
            simp (failed, given)
      ])

  retry_loop-again :
      (fuel k : ℕ) (result : Option ℤ) (waits : List ℕ)
      → k < m
      → stops codes (operation k) ≡ false
      → retry_loop codes operation m (suc fuel) k result waits
        ≡ retry_loop codes operation m fuel (suc k) (some (operation k)) (backoff m (suc k) waits)
  unfolding retry_loop
  retry_loop-again fuel k result waits room h =
      let failed : is_zero (operation k) ≡ false = ground (arith, h) in
      let again : is_retryable codes (negated (operation k)) ≡ true = ground (arith, h) in
      rw (lt→ltb k m room) (simp (failed, again))

  abbrev Ends : Attempts → Type 0
  Ends a = (a.calls ≤ m) × (a.result ≡ last_answer operation a.calls) × (a.waits ≡ waits_of a.calls)

  -- A stretch of calls that may be tried again.
  abbrev pub Retries : ℕ → Type 0
  Retries n = (i : ℕ) → i < n → stops codes (operation i) ≡ false

  retry_loop-first :
      (fuel k n : ℕ) (result : Option ℤ) (waits : List ℕ)
      → n < fuel + k
      → k ≤ n
      → n < m
      → Retries n
      → stops codes (operation n) ≡ true
      → (waits' : List ℕ) × (retry_loop codes operation m fuel k result waits
          ≡ some (record { calls = suc n; result = some (operation n); waits = waits' }))
  retry_loop-first zero k n res w enough below room before here = absurd (omega arith)
  retry_loop-first (suc fuel) k n res w enough below room before here =
      elim (Bool-cases (ltb k n)) [
        | inl more ↦
            let k_lt = ltb→lt k n more in
            let (w', e) =
              retry_loop-first fuel (suc k) n (some (operation k)) (backoff m (suc k) w)
                (omega arith) (omega (arith, k_lt)) room before here in
            (w', retry_loop-again fuel k res w (omega (arith, k_lt)) (before k k_lt) ∙ e)
        | inr last ↦
            let same : k ≡ n = omega (arith, le_of_ltb-false k n last) in
            (w, rw same (retry_loop-stop fuel n res w room here))
      ]

  -- If an operation fails in ways that may be tried again, and then, within the given number of
  -- calls, succeeds or fails in another way, trying it calls it up to there and gives that
  -- result.
  pub execute_with_retry-first :
      (n : ℕ)
      → n < m
      → Retries n
      → stops codes (operation n) ≡ true
      → (waits : List ℕ) × (execute_with_retry codes operation m
          ≡ some (record { calls = suc n; result = some (operation n); waits = waits }))
  unfolding execute_with_retry
  execute_with_retry-first n room before here =
      retry_loop-first (suc m) 0 n none [] (omega arith) (omega arith) room before here
