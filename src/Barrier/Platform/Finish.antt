-- ===== src/Barrier/Platform/Finish.antt =====
-- How the calls under way at a barrier come to their end (src/barrier.rs).
use pinned_sync.Base.{
  ℕ, zero, suc, ◌+◌, ◌*◌, ◌≤◌, ◌<◌, ◌≡◌, refl, inl, inr, false, arith, total, usize_mod,
  some_passes, sym, ◌∙◌,
}
use pinned_sync.Sys.Interface.{SysMutex, Phase, SysMutexLaws}
use pinned_sync.Barrier.Platform.{
  Pc, Lock, Move, call, spurious, System, Step, pick, notify_all, Reach, later,
}
use pinned_sync.Barrier.Platform.Runs.{Tally, tally, tally_move, tally_step, runs_are_short}
use pinned_sync.Barrier.Platform.Counting.{in_call}
use pinned_sync.Barrier.Platform.Progress.{is_awake, some_call_goes_on}
use pinned_sync.Barrier.Platform.Completion.{full_groups_return, beyond_is_asleep}
use pinned_sync.Barrier.Platform.Ended.{starts_or_stirs, from_outside, moved_by_own_step}

-- One step that is neither a call nor a wake-up is counted.
abbrev Spent : Tally → Tally → Type 0
Spent t t' =
    (t'.calls ≡ t.calls)
    × (t'.wakeups ≡ t.wakeups)
    × (t'.others + t'.returns ≡ suc (t.others + t.returns))

module _ {sys : SysMutex} where
  -- Steps that begin no call and end no wait that nobody notified.
  pub data Continues (k n : ℕ) (c : System sys) : System sys → Type 0 where
    stop : Continues k n c c
    go :
        {t u : System sys}
        → Continues k n c t
        → (st : Step sys k n t u) → from_outside st ≡ false
        → Continues k n c u

  unfoldable pub extend :
      {k n : ℕ} {c t : System sys} → Reach sys k n c → Continues k n c t → Reach sys k n t
  extend r stop = r
  extend r (go w st e) = later (extend r w) st

  move-Spent :
      {n i : ℕ} {m m' : Lock sys} {p p' : Pc sys} (mv : Move sys n i m p m' p') (t : Tally)
      → starts_or_stirs mv ≡ false
      → Spent t (tally_move mv t)
  move-Spent (call _) t h = absurd cc
  move-Spent spurious t h = absurd cc
  move-Spent mv t h = (refl, refl, omega arith)

  step-Spent :
      {k n : ℕ} {c c' : System sys} (st : Step sys k n c c') (t : Tally)
      → from_outside st ≡ false
      → Spent t (tally_step st t)
  step-Spent (pick i lt mv) t h = move-Spent mv t h
  step-Spent (notify_all i lt e) t h = (refl, refl, omega arith)

  calls-extend :
      {k n : ℕ} {c t : System sys} (r : Reach sys k n c) (w : Continues k n c t)
      → (tally (extend r w)).calls ≡ (tally r).calls
  unfolding extend tally
  calls-extend r stop = refl
  calls-extend r (go w st e) = (step-Spent st (tally (extend r w)) e).0 ∙ calls-extend r w

module _ (sys : SysMutex) (InPhase : sys.Raw → Phase → Type 0) (laws : SysMutexLaws sys InPhase)
    {k n : ℕ} (pos : 0 < n) (few : n < usize_mod) {c : System sys} (r : Reach sys k n c) where
  abbrev Finished : Type 0
  Finished = (t : System sys) × Continues k n c t × ((i : ℕ) → is_awake (t.pc i) ≡ false)

  -- So many steps are left at most.
  abbrev Left : Tally → ℕ → Type 0
  Left t f = t.calls * (4 + 3 * k) + 3 * t.wakeups ≤ t.others + t.returns + f

  finish : (f : ℕ) {t : System sys} (w : Continues k n c t) → Left (tally (extend r w)) f → Finished
  unfolding extend tally
  finish zero {t} w left = elim (some_passes is_awake k t.pc) [
    | inl (i, awake) ↦
        let (j, u, awake_j, st, moved) = some_call_goes_on laws pos few (extend r w) i awake in
        let works = moved_by_own_step st j awake_j moved in
        let short = runs_are_short (later (extend r w) st) in
        absurd (ground (arith, step-Spent st (tally (extend r w)) works))
    | inr none_is ↦ (t, w, beyond_is_asleep sys InPhase laws pos few (extend r w) none_is)
  ]
  finish (suc f) {t} w left = elim (some_passes is_awake k t.pc) [
    | inl (i, awake) ↦
        let (j, u, awake_j, st, moved) = some_call_goes_on laws pos few (extend r w) i awake in
        let works = moved_by_own_step st j awake_j moved in
        finish f (go w st works) (ground (arith, step-Spent st (tally (extend r w)) works))
    | inr none_is ↦ (t, w, beyond_is_asleep sys InPhase laws pos few (extend r w) none_is)
  ]

  -- From every reachable state of a barrier for `n` threads, with `0 < n < 2 ^ 64`, over a platform
  -- that keeps the contract of `sys::mutex`, before which fewer than `n * 2 ^ 64` calls of `wait`
  -- have begun, the threads can go on, with no further call and no wake-up that nobody sends, until
  -- each is outside `wait` or asleep in it; then the calls that returned are `n` times some number
  -- of groups, and fewer than `n` calls have not returned.
  pub calls_finish :
      (tally r).calls < n * usize_mod
      → (t : System sys) × (w : Continues k n c t) × ((i : ℕ) → is_awake (t.pc i) ≡ false)
        × ((groups : ℕ) × ((tally (extend r w)).returns ≡ n * groups)
            × ((tally r).calls ≡ n * groups + total in_call k t.pc)
            × (total in_call k t.pc < n))
  unfolding extend
  calls_finish lt =
      let (t, w, quiet) =
        finish ((tally r).calls * (4 + 3 * k) + 3 * (tally r).wakeups) stop (omega arith) in
      let same = calls-extend r w in
      let (groups, returned, begun, short) =
        full_groups_return sys InPhase laws pos few (extend r w) quiet (ground (arith, same, lt)) in
      (t, w, quiet, (groups, returned, sym same ∙ begun, short))
