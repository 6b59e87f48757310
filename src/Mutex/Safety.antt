-- ===== src/Mutex/Safety.antt =====
-- What holds in every state that threads reach with one `Mutex` (src/mutex.rs).
use pinned_sync.Base.{
  Bool, true, false, ℕ, ◌≡◌, ◌≢◌, ◌⊎◌, inl, inr, none, some, arith, ◌==◌, Bool-cases, ◌∙◌, ap,
}
use pinned_sync.Effect.{Outcome, returned, blocked, panicked}
use pinned_sync.Std.{LockResult, inner_of, is_err, Thread}
use pinned_sync.SysCommon.Poison.History.{any_panics}
use pinned_sync.Sys.Interface.{SysMutex, Phase, SysMutexLaws, when_held}
use pinned_sync.Mutex.{Mutex, MutexGuard, lock}
use pinned_sync.Mutex.Calls.{
  Acquired, IsLive, lock_free_lem, lock_held_lem, lock-Acquired, try_lock-Acquired,
  try_lock-Acquired_poisoned, try_lock_would_block,
}
use pinned_sync.Mutex.Threads.{
  System, Step, locked, try_locked, try_locked_poisoned, try_failed, wrote, dropped, Reach, actor,
}
use pinned_sync.Mutex.Invariant.{Inv, free-Idle, Inv-IsLive, holder, Reach-Inv}

waits_or_panics :
    {S A : Type 0} {x : Outcome A × S} (relock_panics : Bool) (th : Thread) (u : ℕ) (m : S)
    → x ≡ (when_held relock_panics th u, m)
    → (x ≡ (blocked, m)) ⊎ ((th.id ≡ u) × (x ≡ (panicked, m)))
waits_or_panics true th u m e = elim (Bool-cases (th.id == u)) [
  | inl same ↦ inr (ground (arith, same), ground (arith, same))
  | inr other ↦ inl (ground (arith, other))
]
waits_or_panics false th u m e = inl e

module _ (sys : SysMutex) (InPhase : sys.Raw → Phase → Type 0)
    (laws : SysMutexLaws sys InPhase) where
  module _ {T : Type 0} where
    reached-Inv : {s : System sys T} → Reach sys T s → Inv sys InPhase laws s
    reached-Inv = Reach-Inv sys InPhase laws

    -- Two threads never have a guard of the mutex at once, in any state that threads reach by calls
    -- of its methods, over any platform that keeps the contract of `SysMutex`.
    mutual_exclusion :
        {s : System sys T} {g h : MutexGuard sys}
        → Reach sys T s
        → (i j : ℕ) → s.guards i ≡ some g
        → s.guards j ≡ some h
        → i ≡ j
    mutual_exclusion {s} r i j e f = elim (Bool-cases (i == j)) [
      | inl same ↦ ground arith
      | inr other ↦ absurd (ground (arith, (holder sys InPhase laws (reached-Inv r) i e).2 j))
    ]

    -- In every reachable state either no thread has a guard and `lock` returns to any thread, or
    -- one thread has it and `lock` changes nothing: it makes any other thread wait, and the thread
    -- that has the guard waits for ever or panics.
    pub lock_progress :
        {s : System sys T}
        → Reach sys T s
        → (th : Thread)
        → (((i : ℕ) → s.guards i ≡ none)
            × ((r : LockResult (MutexGuard sys)) × (m : Mutex sys T) × (lock sys th s.mutex
                  ≡ (returned r, m))))
          ⊎ ((u : ℕ) × (s.guards u ≢ none)
              × ((lock sys th s.mutex ≡ (blocked, s.mutex))
                  ⊎ ((th.id ≡ u) × (lock sys th s.mutex ≡ (panicked, s.mutex)))))
    lock_progress {s} r th = elim (reached-Inv r).owned [
      | inl idle ↦ inl (idle.1, lock_free_lem sys InPhase laws th s.mutex idle.0)
      | inr (u, h) ↦ inr (
        u,
        h.1,
        waits_or_panics laws.relock_panics th u s.mutex
            (lock_held_lem sys InPhase laws th u s.mutex h.0),
      )
    ]

    -- When `lock` returns in a reachable state, the result is an error exactly when a thread began
    -- to panic in a critical section before; with or without an error it carries a guard that
    -- remembers whether the caller was panicking, and the value is untouched.
    pub lock_reports_poison :
        {s : System sys T}
        → Reach sys T s
        → (th : Thread) (r : LockResult (MutexGuard sys)) (m : Mutex sys T)
        → lock sys th s.mutex ≡ (returned r, m)
        → (is_err r ≡ any_panics s.history)
          × ((inner_of r).poison.panicking ≡ th.panicking)
          × (m.cell ≡ s.mutex.cell)
    lock_reports_poison {s} r th res m e =
        let inv = reached-Inv r in
        let (a, p) =
          lock-Acquired sys InPhase laws th s.mutex m res (Inv-IsLive sys InPhase laws inv) e in
        (p ∙ inv.recorded, a.noted, a.same_cell)

    Reach-IsLive : {s : System sys T} → Reach sys T s → IsLive sys InPhase laws s.mutex
    Reach-IsLive r = Inv-IsLive sys InPhase laws (reached-Inv r)

    -- Nobody acquires the mutex while a thread has a guard.
    busy :
        {s : System sys T} {g : MutexGuard sys}
        → Reach sys T s
        → (i : ℕ) → s.guards i ≡ some g
        → {th : Thread} {m : Mutex sys T} {h : MutexGuard sys}
        → ¬ Acquired sys InPhase laws th s.mutex m h
    busy r i e a = ground (arith, (free-Idle sys InPhase laws (reached-Inv r) a.was_free).1 i)

    -- In a reachable state in which thread `i` has the guard, a call by another thread changes
    -- neither the value nor the guard of `i`.
    others_excluded :
        {s t : System sys T} {g : MutexGuard sys}
        → Reach sys T s
        → (i : ℕ) → s.guards i ≡ some g
        → (st : Step sys T s t) → (actor sys T st).id ≢ i
        → (t.mutex.cell ≡ s.mutex.cell) × (t.guards i ≡ some g)
    others_excluded {s} {g} r i e (locked th {r = q} {m} c) ne =
        absurd (busy r i e (lock-Acquired sys InPhase laws th s.mutex m q (Reach-IsLive r) c).0)
    others_excluded {s} {g} r i e (try_locked th {g = h} {m} c) ne =
        absurd (busy r i e (try_lock-Acquired sys InPhase laws th s.mutex m h (Reach-IsLive r) c).0)
    others_excluded {s} {g} r i e (try_locked_poisoned th {e = p} {m} c) ne = absurd (
        busy r i e
          (try_lock-Acquired_poisoned sys InPhase laws th s.mutex m p (Reach-IsLive r) c).0)
    others_excluded {s} {g} r i e (try_failed th {m} c) ne = (
      ap (λ k. k.cell) (try_lock_would_block sys InPhase laws th s.mutex m (Reach-IsLive r) c).0,
      e,
    )
    others_excluded r i e (wrote th value h c) ne = absurd (ne (mutual_exclusion r th.id i h e))
    others_excluded r i e (dropped th h c) ne = absurd (ne (mutual_exclusion r th.id i h e))
