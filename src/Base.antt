-- ===== src/Base.antt =====
-- The names that the other modules share: the libraries', passed on, and the tests on numbers and
-- Booleans that the program branches by.
mod Tests
mod Words
mod Family
pub use Tests.*
pub use Words.*
pub use Family.*
pub use Prim.Native.Nat.{ℕ, zero, suc, ◌+◌, ◌-◌, ◌*◌, ◌/◌, ◌%◌, ◌^◌, ◌≤◌, ◌<◌}
pub use mathlib.Core.Path.{◌≡◌, refl, sym, ap, ◌∙◌, subst}
pub use mathlib.Core.Logic.{◌≢◌, ◌↔◌, ◌⊎◌, inl, inr}
pub use mathlib.Core.Bool.{Bool, true, false, not, ◌&&◌, ◌||◌}
pub use mathlib.Core.Option.{Option, none, some}
pub use mathlib.Core.List.{List, [], ◌∷◌, ◌++◌}
pub use native.Mathlib.Nat.{lt_of_mul-lt-mul_left}
pub use native.Mathlib.Omega.{arith}
