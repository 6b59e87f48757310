-- ===== src/Barrier/Invariant.antt =====
-- What holds between any two steps of threads at a barrier (src/barrier.rs).
mod Defs
mod Moves
mod Wake
pub use Defs.*
use Moves.{Move-Inv}
use Wake.{wake-Inv}
use pinned_sync.Base.{ℕ, ◌≡◌, refl, ◌<◌, usize_mod, arith, false, none, total-eq-zero, total}
use pinned_sync.SysCommon.Poison
use pinned_sync.Barrier.{uninit_state}
use pinned_sync.Barrier.Threads.{
  System, Step, pick, notify_all, Reach, here, later, start, outside, Pc,
}

total-outside : (w : Pc → ℕ) (k : ℕ) → w outside ≡ 0 → total w k (λ _. outside) ≡ 0
total-outside w k h = total-eq-zero w k _ (λ _. h)

start-Inv : (k n : ℕ) → 0 < n → Inv k n start.mem start.pc
unfolding uninit_state Poison.new Poison.get
start-Inv k n pos = record {
  owned = λ i h. cc;
  owner_holds = λ i h. cc;
  sound = refl;
  placed = λ i. tt;
  generation = refl;
  short = pos;
  counted = omega (arith, total-outside (waits 0) k refl);
  arrivals = omega arith;
  returns = omega (arith, total-outside inside k refl);
  leaders = omega (arith, total-outside leads k refl);
  asleep = λ i. tt;
  beyond = λ i h. refl;
}

-- Every step, of any thread, keeps the invariant.
pub Step-Inv :
    {k n : ℕ} {s t : System}
    → n < usize_mod
    → Step k n s t
    → Inv k n s.mem s.pc
    → Inv k n t.mem t.pc
Step-Inv few (pick i lt mv) inv = Move-Inv inv few i lt mv
Step-Inv few (notify_all i {f} lt e) inv = wake-Inv inv i f lt e

pub Reach-Inv : {k n : ℕ} {s : System} → 0 < n → n < usize_mod → Reach k n s → Inv k n s.mem s.pc
Reach-Inv {k} {n} pos few here = start-Inv k n pos
Reach-Inv pos few (later r st) = Step-Inv few st (Reach-Inv pos few r)
