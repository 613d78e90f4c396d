-- ===== src/Base/Words.antt =====
-- `size_t` arithmetic: sums and differences modulo 2 ^ 64.
use Prim.Native.Nat.{ℕ, ◌+◌, ◌-◌, ◌%◌, ◌^◌, ◌<◌}
use mathlib.Core.Path.{◌≡◌}
use native.Mathlib.Omega.{arith}

abbrev pub word : ℕ
word = 2 ^ 64

unfoldable pub add64 : ℕ → ℕ → ℕ
add64 a b = (a + b) % word

unfoldable pub sub64 : ℕ → ℕ → ℕ
sub64 a b = (a % word + word - b % word) % word

pub add64-mod : (a b : ℕ) → add64 (a % word) b ≡ (a + b) % word
unfolding add64
add64-mod a b = omega arith

pub sub64-mod : (a b : ℕ) → sub64 ((a + b) % word) b ≡ a % word
unfolding sub64
sub64-mod a b = omega arith

pub add64_exact : (a b : ℕ) → a + b < word → add64 a b ≡ a + b
unfolding add64
add64_exact a b h = omega arith
