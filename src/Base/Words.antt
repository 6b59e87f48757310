-- ===== src/Base/Words.antt =====
-- Machine integers. A `usize` is a number below `2 ^ 64`; an `isize` is a signed number, of which
-- the program keeps three values.
use Prim.Native.Nat.{ℕ, ◌+◌, ◌%◌, ◌^◌}
use mathlib.Core.Bool.{Bool, false}
use pinned_sync.Base.Tests.{◌==◌}

abbrev pub usize_mod : ℕ
usize_mod = 2 ^ 64

-- `usize::wrapping_add`
abbrev pub wrapping_add : ℕ → ℕ → ℕ
wrapping_add a b = (a + b) % usize_mod

-- `negsuc n` is -(n + 1).
pub data ℤ : Type 0 where
  pos : ℕ → ℤ
  negsuc : ℕ → ℤ

infix 50 ◌==ℤ◌
abbrev pub ◌==ℤ◌ : ℤ → ℤ → Bool
pos a ==ℤ pos b = a == b
negsuc a ==ℤ negsuc b = a == b
_ ==ℤ _ = false
