-- ===== src/Barrier/Platform/Ended.antt =====
-- What has returned when every run at a barrier has come to its end (src/barrier.rs).
use pinned_sync.Base.{
  ℕ, ◌+◌, ◌*◌, ◌<◌, ◌≡◌, ◌≢◌, refl, inl, inr, Bool, true, false, arith, total, usize_mod,
  Bool-cases,
}
use pinned_sync.Sys.Interface.{SysMutex, Phase, SysMutexLaws}
use pinned_sync.Barrier.Platform.{
  Pc, Lock, Move, call, spurious, System, Step, pick, notify_all, Reach,
}
use pinned_sync.Barrier.Platform.Runs.{tally}
use pinned_sync.Barrier.Platform.Counting.{in_call}
use pinned_sync.Barrier.Platform.Progress.{is_awake, some_call_goes_on}
use pinned_sync.Barrier.Platform.Completion.{full_groups_return}

module _ {sys : SysMutex} where
  -- The step begins a call, or ends a wait that nobody notified.
  abbrev pub starts_or_stirs :
      {n i : ℕ} {m m' : Lock sys} {p p' : Pc sys} → Move sys n i m p m' p' → Bool
  starts_or_stirs (call _) = true
  starts_or_stirs spurious = true
  starts_or_stirs _ = false

  abbrev pub from_outside : {k n : ℕ} {c t : System sys} → Step sys k n c t → Bool
  from_outside (pick _ _ mv) = starts_or_stirs mv
  from_outside (notify_all _ _ _) = false

  awake_not :
      {n i : ℕ} {m m' : Lock sys} {p p' : Pc sys} (mv : Move sys n i m p m' p')
      → starts_or_stirs mv ≡ true
      → is_awake p ≡ false
  awake_not (call _) h = refl
  awake_not spurious h = refl
  awake_not _ h = absurd cc

  asleep_starts_or_stirs :
      {n i : ℕ} {m m' : Lock sys} {p p' : Pc sys} (mv : Move sys n i m p m' p')
      → is_awake p ≡ false
      → starts_or_stirs mv ≡ true
  asleep_starts_or_stirs (call _) h = refl
  asleep_starts_or_stirs spurious h = refl
  asleep_starts_or_stirs _ h = absurd cc

  -- When no thread is awake in a call every step comes from outside.
  pub quiet_from_outside :
      {k n : ℕ} {c t : System sys}
      → ((i : ℕ) → is_awake (c.pc i) ≡ false)
      → (st : Step sys k n c t) → from_outside st ≡ true
  quiet_from_outside quiet (pick i lt mv) = asleep_starts_or_stirs mv (quiet i)
  quiet_from_outside quiet (notify_all i lt e) = absurd (ground (arith, quiet i))

  pub moved_by_own_step :
      {k n : ℕ} {c t : System sys} (st : Step sys k n c t) (i : ℕ)
      → is_awake (c.pc i) ≡ true
      → t.pc i ≢ c.pc i
      → from_outside st ≡ false
  moved_by_own_step {c = c} (pick j lt mv) i awake moved = elim (Bool-cases (starts_or_stirs mv)) [
    | inl idle ↦ absurd (moved (ground (arith, awake_not mv idle)))
    | inr works ↦ works
  ]
  moved_by_own_step (notify_all j lt e) i awake moved = refl

module _ (sys : SysMutex) (InPhase : sys.Raw → Phase → Type 0) (laws : SysMutexLaws sys InPhase)
    {k n : ℕ} (pos : 0 < n) (few : n < usize_mod) where
  -- Let a run at a barrier for `n` threads, with `0 < n < 2 ^ 64`, over a platform that keeps the
  -- contract of `sys::mutex`, have come to a state from which every step begins a call or ends a
  -- wait that nobody notified, and let fewer than `n * 2 ^ 64` calls have begun. Then the calls
  -- that returned are `n` times some number of groups, and fewer than `n` calls have not returned.
  pub ended_runs_are_complete :
      {c : System sys} (r : Reach sys k n c)
      → ((t : System sys) (st : Step sys k n c t) → from_outside st ≡ true)
      → (tally r).calls < n * usize_mod
      → (groups : ℕ) × ((tally r).returns ≡ n * groups)
        × ((tally r).calls ≡ n * groups + total in_call k c.pc)
        × (total in_call k c.pc < n)
  ended_runs_are_complete {c} r ended lt = full_groups_return sys InPhase laws pos few r quiet lt
    where
      quiet : (i : ℕ) → is_awake (c.pc i) ≡ false
      quiet i = elim (Bool-cases (is_awake (c.pc i))) [
        | inl awake ↦
            let (j, t, awake_j, st, moved) = some_call_goes_on laws pos few r i awake in
            absurd (ground (arith, ended t st, moved_by_own_step st j awake_j moved))
        | inr asleep ↦ asleep
      ]
