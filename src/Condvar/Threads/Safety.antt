-- ===== src/Condvar/Threads/Safety.antt =====
-- What threads that lock one `Mutex` and wait with its guard may rely on (src/condvar.rs).
use pinned_sync.Base.{
  ℕ, ◌≡◌, refl, ◌≢◌, ◌⊎◌, inl, inr, Option, none, some, arith, ◌==◌, Bool-cases, ◌∙◌,
}
use pinned_sync.Effect.{returned}
use pinned_sync.Std.{LockResult, inner_of, is_err, Thread}
use pinned_sync.SysCommon.Poison
use pinned_sync.SysCommon.Poison.History.{any_panics}
use pinned_sync.Sys.Interface.{SysMutex, Phase, SysMutexLaws, when_held}
use pinned_sync.Mutex
use pinned_sync.Mutex.{Mutex, MutexGuard}
use pinned_sync.Mutex.Invariant.{holder}
use pinned_sync.Condvar.Threads.{Waiter, awake, woken, System, Step, resumes, Reach}
use pinned_sync.Condvar.Threads.Invariant.{IsNoted, resumed, Reach-Inv}

awake_of_guard :
    {G : Type 0} (g : G) (o : Option G) (th : Thread) (w : Waiter)
    → o ≡ some g
    → IsNoted o th w
    → w ≡ awake
awake_of_guard g o th w e h = ground arith

module _ (sys : SysMutex) (InPhase : sys.Raw → Phase → Type 0)
    (laws : SysMutexLaws sys InPhase) where
  module _ {T : Type 0} {s : System sys T} (reach : Reach sys T s) where
    -- In every state that threads reach by calls of the mutex and waits with its guard, over any
    -- platform that keeps the contract of `SysMutex`: a thread that has a guard is not in a wait,
    -- and no other thread has a guard.
    pub wait_keeps_exclusion :
        {g : MutexGuard sys} (i j : ℕ)
        → s.base.guards i ≡ some g
        → (s.waiting i ≡ awake) × ((i ≡ j) ⊎ (s.base.guards j ≡ none))
    wait_keeps_exclusion {g} i j e =
        let inv = Reach-Inv sys InPhase laws reach in
        (
          awake_of_guard g (s.base.guards i) (s.base.begun i) (s.waiting i) e (inv.suspended i),
          elim (Bool-cases (i == j)) [
            | inl same ↦ inl (ground arith)
            | inr other ↦ inr (ground (arith, (holder sys InPhase laws inv.sound i e).2 j))
          ],
        )

    -- When a wait takes the mutex again, no thread has a guard, and the result of the wait is an
    -- error exactly when a thread began to panic in a critical section that has ended by then. Its
    -- guard tells whether the thread was panicking when it locked the mutex, not when it waited,
    -- and the value is untouched.
    pub resumed_wait_reports_poison :
        (th : Thread) (note : Poison.Guard) (raw_guard : sys.RawGuard) (raw : sys.Raw)
        (r : LockResult (MutexGuard sys)) (m : Mutex sys T)
        → s.waiting th.id ≡ woken note
        → sys.lock th s.base.mutex.inner ≡ (returned raw_guard, raw)
        → Mutex.repoison sys
            (λ s. s)
            (record { guard = raw_guard; poison = note })
            (record s.base.mutex { inner = raw })
          ≡ (returned r, m)
        → ((i : ℕ) → s.base.guards i ≡ none)
          × (is_err r ≡ any_panics s.base.history)
          × ((inner_of r).poison.panicking ≡ (s.base.begun th.id).panicking)
          × (m.cell ≡ s.base.mutex.cell)
    resumed_wait_reports_poison th note raw_guard raw r m w l e =
        let inv = Reach-Inv sys InPhase laws reach in
        let (idle, now_held, poison, cell, given, reported) =
          resumed sys InPhase laws th note raw_guard raw r m inv l e in
        (idle.1, reported ∙ inv.sound.recorded, ground (arith, inv.suspended th.id), cell)

    -- A wait that was woken goes on exactly when no thread has a guard: then it has a step after
    -- which the thread is out of the wait with a guard. Otherwise the platform's mutex makes it
    -- wait, and changes nothing.
    woken_wait_progress :
        (th : Thread) (note : Poison.Guard)
        → s.waiting th.id ≡ woken note
        → (((i : ℕ) → s.base.guards i ≡ none)
            × ((t : System sys T) × Step sys T s t
                × (t.waiting th.id ≡ awake)
                × (t.base.guards th.id ≢ none)))
          ⊎ ((u : ℕ) × (s.base.guards u ≢ none)
              × (sys.lock th s.base.mutex.inner
                  ≡ (when_held laws.relock_panics th u, s.base.mutex.inner)))
    unfolding Mutex.repoison
    woken_wait_progress th note w = elim (Reach-Inv sys InPhase laws reach).sound.owned [
      | inl idle ↦
          let (g, raw, l, h) = laws.lock_free th s.base.mutex.inner idle.0 in
          inl (idle.1, (_, resumes th w l refl, ground arith, ground arith))
      | inr (u, h) ↦ inr (u, h.1, laws.lock_held th u s.base.mutex.inner h.0)
    ]
