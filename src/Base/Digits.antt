-- ===== src/Base/Digits.antt =====
-- What holds of every number that is written in decimal.
use Prim.Native.Nat.{ℕ, zero, suc, ◌+◌, ◌/◌, ◌%◌, ◌<◌}
use mathlib.Core.List.{[], ◌∷◌, ◌++◌}
use native.Mathlib.Omega.{arith}
use sql_fuse.Base.Tests.{ltb, ltb→lt, by_if}
use sql_fuse.Base.Bytes.{Text}
use sql_fuse.Base.Decimal.{decimal, to_string}

-- What holds of the digits and of texts that are put together from those.
module _ {ℓ} (P : Text → Type ℓ) (nil : P []) (digit : (n : ℕ) → n < 10 → P ((b'0' + n) ∷ []))
    (append : (s t : Text) → P s → P t → P (s ++ t)) where
  decimal-holds : (fuel n : ℕ) → P (decimal fuel n)
  unfolding decimal
  decimal-holds zero n = nil
  decimal-holds (suc fuel) n =
      by_if P (ltb n 10) (λ small. digit n (ltb→lt n 10 small))
        (λ large.
          append (decimal fuel (n / 10)) _ (decimal-holds fuel (n / 10))
            (digit (n % 10) (omega arith)))

  pub to_string-holds : (n : ℕ) → P (to_string n)
  unfolding to_string
  to_string-holds n = decimal-holds (suc n) n
