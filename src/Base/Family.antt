-- ===== src/Base/Family.antt =====
-- Families indexed by threads: a write at one index, and the sum of a weight over the first `n`.
use Prim.Native.Nat.{ℕ, zero, suc, ◌+◌, ◌*◌, ◌≤◌, ◌<◌}
use mathlib.Core.Path.{◌≡◌, refl}
use native.Mathlib.Omega.{arith}
use mathlib.Core.Logic.{◌⊎◌, inl, inr}
use mathlib.Core.Bool.{Bool, true, false}
use pinned_sync.Base.Tests.{◌==◌, if◌then◌else◌, Bool-cases}

abbrev pub update {ℓ} : {A : Type ℓ} → (ℕ → A) → ℕ → A → ℕ → A
update f i a j = if i == j then a else f j

module _ {ℓ} {A : Type ℓ} (weight : A → ℕ) where
  pub total : ℕ → (ℕ → A) → ℕ
  total zero family = 0
  total (suc k) family = total k family + weight (family k)

  total-update_out :
      (k : ℕ) (family : ℕ → A) (at : ℕ) (value : A)
      → k ≤ at
      → total k (update family at value) ≡ total k family
  unfolding total
  total-update_out zero family at value here = refl
  total-update_out (suc k) family at value here = ground (arith, total-update_out k family at value)

  -- A write at `i` replaces the weight of one entry.
  pub total-update :
      (k : ℕ) (family : ℕ → A) (at : ℕ) (value : A)
      → at < k
      → total k (update family at value) + weight (family at) ≡ total k family + weight value
  unfolding total
  total-update zero family at value here = absurd (omega arith)
  total-update (suc k) family at value here =
      ground (arith, total-update k family at value, total-update_out k family at value)

  pub total-eq-zero :
      (k : ℕ) (family : ℕ → A) → ((at : ℕ) → weight (family at) ≡ 0) → total k family ≡ 0
  unfolding total
  total-eq-zero zero family here = refl
  total-eq-zero (suc k) family here = omega (arith, total-eq-zero k family here, here k)

  -- The weight of one entry is part of the sum.
  pub le-total : (k : ℕ) (family : ℕ → A) (at : ℕ) → at < k → weight (family at) ≤ total k family
  unfolding total
  le-total zero family at here = absurd (omega arith)
  le-total (suc k) family at here = ground (arith, le-total k family at)

-- Two weights that agree on every entry have one sum.
pub total-congr {ℓ κ} :
    {A : Type ℓ} {B : Type κ} (v : A → ℕ) (w : B → ℕ) (n : ℕ) (f : ℕ → A) (g : ℕ → B)
    → ((i : ℕ) → v (f i) ≡ w (g i))
    → total v n f ≡ total w n g
unfolding total
total-congr v w zero f g h = refl
total-congr v w (suc n) f g h = omega (arith, total-congr v w n f g h, h n)

-- A weight that is smaller at every entry has the smaller sum.
pub total_mono {ℓ} :
    {A : Type ℓ} (v w : A → ℕ) (n : ℕ) (f : ℕ → A)
    → ((i : ℕ) → v (f i) ≤ w (f i))
    → total v n f ≤ total w n f
unfolding total
total_mono v w zero f h = omega arith
total_mono v w (suc n) f h = omega (arith, total_mono v w n f h, h n)

-- A weight that is larger by at most `c` at every entry has the larger sum by at most `c` for each.
pub total-le_with {ℓ} :
    {A : Type ℓ} (w : A → ℕ) (c n : ℕ) (f g : ℕ → A)
    → ((i : ℕ) → w (f i) ≤ w (g i) + c)
    → total w n f ≤ total w n g + c * n
unfolding total
total-le_with w c zero f g h = omega arith
total-le_with w c (suc n) f g h = grind (arith, total-le_with w c n f g h, h n)

-- A weight that is at most 1 has a sum of at most the number of entries.
pub total-le {ℓ} :
    {A : Type ℓ} (w : A → ℕ) → ((a : A) → w a ≤ 1) → (n : ℕ) (f : ℕ → A) → total w n f ≤ n
unfolding total
total-le w h zero f = omega arith
total-le w h (suc n) f = omega (arith, total-le w h n f, h (f n))

-- Some entry of the first `n` passes a test, or none of them does.
pub some_passes {ℓ} :
    {A : Type ℓ} (test : A → Bool) (n : ℕ) (f : ℕ → A)
    → ((i : ℕ) × (test (f i) ≡ true)) ⊎ ((i : ℕ) → i < n → test (f i) ≡ false)
some_passes test zero f = inr (λ i lt. absurd (omega arith))
some_passes test (suc n) f = elim (Bool-cases (test (f n))) [
  | inl passes ↦ inl (n, passes)
  | inr fails ↦ elim (some_passes test n f) [
    | inl found ↦ inl found
    | inr none_passes ↦ inr (λ i lt. ground (arith, none_passes i))
  ]
]
