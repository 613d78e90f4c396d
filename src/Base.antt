-- ===== src/Base.antt =====
-- The names that the other modules share: the libraries', passed on, and those of the children.
mod Tests
mod Lists
mod Bytes
mod Keys
mod Assoc
mod Words
mod Decimal
mod Digits
mod Integers
pub use Tests.*
pub use Lists.*
pub use Bytes.*
pub use Keys.*
pub use Assoc.*
pub use Words.*
pub use Decimal.*
pub use Digits.*
pub use Integers.*
unfoldable pub use Decimal.{to_string, decimal}
unfoldable pub use Keys.{mem, remove, pop_back}
unfoldable pub use Assoc.{lookup, insert, erase}
unfoldable pub use Words.{add64, sub64}
unfoldable pub use Bytes.{text_eq}
pub use Prim.Native.Nat.{ℕ, zero, suc, ◌+◌, ◌-◌, ◌*◌, ◌/◌, ◌%◌, ◌^◌, ◌≤◌, ◌<◌, min}
pub use mathlib.Core.Path.{◌≡◌, refl, sym, ap, ◌∙◌, subst, ◌≡⟨◌⟩◌, ◌∎}
pub use mathlib.Core.Logic.{◌≢◌, ◌↔◌, ◌⊎◌, inl, inr}
pub use mathlib.Core.Bool.{Bool, true, false, not, ◌&&◌, ◌||◌}
pub use mathlib.Core.Option.{Option, none, some}
pub use mathlib.Core.List.{List, [], ◌∷◌, ◌++◌, map, append_assoc, append-nil}
pub use native.Mathlib.Omega.{arith}
