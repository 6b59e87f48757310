-- ===== src/Mutex/Calls.antt =====
-- What one call of a method of `Mutex` does in each phase of the platform's mutex (src/mutex.rs).
use pinned_sync.Base.{ℕ, ◌≡◌, ◌⊎◌, inl, inr, true, false, arith}
use pinned_sync.Effect.{returned}
use pinned_sync.Std.{
  ok, err, poisoned, would_block, LockResult, PoisonError, inner_of, is_err, Thread,
}
use pinned_sync.SysCommon.Poison
use pinned_sync.SysCommon.Poison.{map_result}
use pinned_sync.Sys.Interface.{SysMutex, Phase, free, held, when_held, SysMutexLaws}
use pinned_sync.Mutex.{Mutex, MutexGuard, lock, try_lock, is_poisoned, drop_guard}

module _ (sys : SysMutex) (InPhase : sys.Raw → Phase → Type 0)
    (laws : SysMutexLaws sys InPhase) where
  module _ {T : Type 0} where
    -- A thread has got the mutex `m`, which is now `m'`, with the guard `g`.
    pub record Acquired (th : Thread) (m m' : Mutex sys T) (g : MutexGuard sys) : Type 0 where
      pub was_free : InPhase m.inner free
      pub now_held : InPhase m'.inner (held th.id)
      pub same_poison : m'.poison ≡ m.poison
      pub same_cell : m'.cell ≡ m.cell
      pub noted : g.poison.panicking ≡ th.panicking

    -- The mutex is free or some thread holds it.
    abbrev pub IsLive : Mutex sys T → Type 0
    IsLive m = InPhase m.inner free ⊎ ((u : ℕ) × InPhase m.inner (held u))

    -- On a free mutex `lock` returns.
    pub lock_free_lem :
        (th : Thread) (m : Mutex sys T)
        → InPhase m.inner free
        → (r : LockResult (MutexGuard sys)) × (m' : Mutex sys T) × (lock sys th m
            ≡ (returned r, m'))
    unfolding lock
    lock_free_lem th m h =
        let (g, raw, e, h') = laws.lock_free th m.inner h in
        (
          map_result (Poison.borrow th m.poison) (λ p. record { guard = g; poison = p }),
          record m { inner = raw },
          ground arith,
        )

    -- On a held mutex it waits, or panics in the holder where the platform does.
    pub lock_held_lem :
        (th : Thread) (u : ℕ) (m : Mutex sys T)
        → InPhase m.inner (held u)
        → lock sys th m ≡ (when_held laws.relock_panics th u, m)
    unfolding lock
    lock_held_lem th u m h = ground (arith, laws.lock_held th u m.inner h)

    pub lock-Acquired :
        (th : Thread) (m m' : Mutex sys T) (r : LockResult (MutexGuard sys))
        → IsLive m
        → lock sys th m ≡ (returned r, m')
        → Acquired th m m' (inner_of r) × (is_err r ≡ is_poisoned sys m)
    unfolding lock is_poisoned Poison.borrow map_result Poison.get
    lock-Acquired th m m' r (inl h) e =
        let (g, raw, e', h') = laws.lock_free th m.inner h in ground arith
    lock-Acquired th m m' r (inr (u, h)) e = ground (arith, laws.lock_held th u m.inner h)

    pub try_lock-Acquired :
        (th : Thread) (m m' : Mutex sys T) (g : MutexGuard sys)
        → IsLive m
        → try_lock sys th m ≡ (returned (ok g), m')
        → Acquired th m m' g × (is_poisoned sys m ≡ false)
    unfolding try_lock is_poisoned Poison.borrow map_result Poison.get
    try_lock-Acquired th m m' g (inl h) e =
        let (_, raw, e', h') = laws.try_lock_free th m.inner h in ground arith
    try_lock-Acquired th m m' g (inr (u, h)) e = ground (arith, laws.try_lock_held th u m.inner h)

    pub try_lock-Acquired_poisoned :
        (th : Thread) (m m' : Mutex sys T) (e : PoisonError (MutexGuard sys))
        → IsLive m
        → try_lock sys th m ≡ (returned (err (poisoned e)), m')
        → Acquired th m m' e.guard × (is_poisoned sys m ≡ true)
    unfolding try_lock is_poisoned Poison.borrow map_result Poison.get
    try_lock-Acquired_poisoned th m m' p (inl h) e =
        let (_, raw, e', h') = laws.try_lock_free th m.inner h in ground arith
    try_lock-Acquired_poisoned th m m' p (inr (u, h)) e =
        ground (arith, laws.try_lock_held th u m.inner h)

    -- `WouldBlock` is the answer on a held mutex only, and the mutex is as it was.
    pub try_lock_would_block :
        (th : Thread) (m m' : Mutex sys T)
        → IsLive m
        → try_lock sys th m ≡ (returned (err would_block), m')
        → (m' ≡ m) × ((u : ℕ) × InPhase m.inner (held u))
    unfolding try_lock Poison.borrow map_result Poison.get
    try_lock_would_block th m m' (inl h) e =
        let (_, raw, e', h') = laws.try_lock_free th m.inner h in absurd (ground arith)
    try_lock_would_block th m m' (inr (u, h)) e =
        (ground (arith, laws.try_lock_held th u m.inner h), (u, h))

    -- The holder's guard is dropped: the mutex is free, and the flag has noted a new panic.
    pub drop_guard_lem :
        (th : Thread) (m : Mutex sys T) (g : MutexGuard sys)
        → InPhase m.inner (held th.id)
        → (raw : sys.Raw) × (drop_guard sys th g m
            ≡ (returned tt, record m { inner = raw; poison = Poison.done th g.poison m.poison }))
          × InPhase raw free
    unfolding drop_guard
    drop_guard_lem th m g h =
        let (raw, e, h') = laws.drop_guard_held th g.guard m.inner h in (raw, ground arith, h')
