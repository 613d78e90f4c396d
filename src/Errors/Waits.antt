-- ===== src/Errors/Waits.antt =====
-- The waits of include/ErrorHandler.hpp between the calls of an operation.
use sql_fuse.Base.{
  Bool-cases, List, [], arith, inl, inr, ltb, ltb→lt, refl, suc, zero, ℕ, ◌*◌, ◌++◌, ◌+◌, ◌<◌, ◌^◌,
  ◌∷◌, ◌≡◌, ◌≤◌,
}
use sql_fuse.Errors.Retry.{wait_of, backoff}

abbrev pub total_wait : List ℕ → ℕ
total_wait [] = 0
total_wait (w ∷ waits) = w + total_wait waits

total_wait-append : (v w : List ℕ) → total_wait (v ++ w) ≡ total_wait v + total_wait w
total_wait-append [] w = omega arith
total_wait-append (a ∷ v) w = omega (arith, total_wait-append v w)

-- The waits after some calls that failed: 200 milliseconds, 400 and so on.
abbrev pub doubled : ℕ → List ℕ
doubled zero = []
doubled (suc n) = doubled n ++ 100 * 2 ^ suc n ∷ []

-- The waits between some calls.
abbrev pub waits_of : ℕ → List ℕ
waits_of zero = []
waits_of (suc n) = doubled n

total_wait-doubled : (n : ℕ) → total_wait (doubled n) + 200 ≡ 100 * 2 ^ suc n
total_wait-doubled zero = omega arith
total_wait-doubled (suc n) =
    omega (arith, total_wait-append (doubled n) (100 * 2 ^ suc n ∷ []), total_wait-doubled n)

pow-monotone : (m n : ℕ) → m ≤ n → 2 ^ m ≤ 2 ^ n
pow-monotone zero zero h = omega arith
pow-monotone zero (suc n) h = omega (arith, pow-monotone zero n (omega arith))
pow-monotone (suc m) zero h = absurd (omega arith)
pow-monotone (suc m) (suc n) h = omega (arith, pow-monotone m n (omega arith))

-- Up to 24 doublings the product fits into 32 bits.
wait_of-doubled : (n : ℕ) → n < 25 → wait_of n ≡ 100 * 2 ^ n
unfolding wait_of
wait_of-doubled n below =
    let room : 2 ^ n ≤ 2 ^ 24 = pow-monotone n 24 (omega (arith, below)) in ground (arith, room)

-- What is kept about the waits of the rounds so far: there is none after the last of the calls.
abbrev pub Waited : ℕ → ℕ → List ℕ → Type 0
Waited max_retries retries waits =
    (retries < max_retries → waits ≡ doubled retries)
    × (retries ≡ max_retries → waits ≡ waits_of retries)

pub backoff-Waited :
    (max_retries retries : ℕ) (waits : List ℕ)
    → max_retries ≤ 25
    → retries < max_retries
    → Waited max_retries retries waits
    → Waited max_retries (suc retries) (backoff max_retries (suc retries) waits)
unfolding backoff
backoff-Waited m r w fits below (so_far, _) = elim (Bool-cases (ltb (suc r) m)) [
  | inl more ↦ rw more (
      let room = ltb→lt (suc r) m more in
      let fitting : suc r < 25 = omega (arith, room, fits) in
      (
        λ _. rw (so_far below, wait_of-doubled (suc r) fitting) refl,
        λ last. absurd (omega (arith, room, last)),
      ))
  | inr last ↦ rw last (λ more. absurd (ground arith), λ _. so_far below)
]

pub total_wait-bounded : (n m : ℕ) → n ≤ m → total_wait (waits_of n) ≤ 100 * 2 ^ m
total_wait-bounded zero m h = omega arith
total_wait-bounded (suc n) m h = omega (arith, total_wait-doubled n, pow-monotone (suc n) m h)
