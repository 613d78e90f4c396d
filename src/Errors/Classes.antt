-- ===== src/Errors/Classes.antt =====
-- src/ErrorHandler.cpp: which codes are errors.
use sql_fuse.Base.{ap, arith, codes, negsuc, none, pos, refl, subst, suc, sym, zero, ℕ, ℤ, ◌↔◌, ◌≡◌}
use sql_fuse.Errors.Codes.{MysqlCodes}
use sql_fuse.Errors.Errno.{mysql_to_errno, oracle_to_errno}

mysql_to_errno_zero : (codes : MysqlCodes) (n : ℕ) → (mysql_to_errno codes n ≡ none) ↔ (n ≡ 0)
unfolding mysql_to_errno
mysql_to_errno_zero codes zero = (λ h. refl, λ h. refl)
mysql_to_errno_zero codes (suc n) = ground arith

oracle_zero : (n : ℕ) → (oracle_to_errno (pos n) ≡ none) ↔ (n ≡ 0)
unfolding oracle_to_errno
oracle_zero n = (λ h. ground (arith, h), λ e. rw e refl)

oracle_to_errno_zero : (z : ℤ) → (oracle_to_errno z ≡ none) ↔ (z ≡ pos 0)
unfolding oracle_to_errno
oracle_to_errno_zero (pos n) =
    (λ h. ap pos ((oracle_zero n).0 h), λ e. subst (λ z. oracle_to_errno z ≡ none) (sym e) refl)
oracle_to_errno_zero (negsuc n) = (λ h. absurd (ground (arith, h)), λ e. absurd cc)

-- The code 0 of MySQL, and that of Oracle, is no error number, and every other code is one.
pub errno_zero :
    (codes : MysqlCodes) (n : ℕ) (z : ℤ)
    → ((mysql_to_errno codes n ≡ none) ↔ (n ≡ 0)) × ((oracle_to_errno z ≡ none) ↔ (z ≡ pos 0))
errno_zero codes n z = (mysql_to_errno_zero codes n, oracle_to_errno_zero z)
