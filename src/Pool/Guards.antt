-- ===== src/Pool/Guards.antt =====
-- Steps of a pool of connections that can be taken only under a condition.
use sql_fuse.Base.{Bool, arith, false, refl, some, subst, true, ◌&&◌, ◌≡◌}
use sql_fuse.Pool.Steps.{when}

pub both : (a b : Bool) → (a && b) ≡ true → (a ≡ true) × (b ≡ true)
both true true h = (refl, refl)
both true false h = absurd cc
both false b h = absurd cc

module _ {ℓ κ} {A : Type ℓ} (P : A → Type κ) where
  pub by_when : (test : Bool) (s' : A) {s : A} → (test ≡ true → P s) → when test s ≡ some s' → P s'
  by_when true s' k e = subst P (ground (arith, e)) (k refl)
  by_when false s' k e = absurd (ground (arith, e))

  pub by_some : (s' : A) {s : A} → P s → some s ≡ some s' → P s'
  by_some s' k e = subst P (ground (arith, e)) k
