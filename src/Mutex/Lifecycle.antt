-- ===== src/Mutex/Lifecycle.antt =====
-- A `Mutex` before `init`, after it and after a second one (src/mutex.rs).
use pinned_sync.Base.{◌≡◌, refl, arith}
use pinned_sync.Effect.{returned, panicked}
use pinned_sync.Std.{ok, Thread}
use pinned_sync.SysCommon.Poison
use pinned_sync.Sys.Interface.{SysMutex, Phase, unready, broken, held, IsUsable, SysMutexLaws}
use pinned_sync.Mutex.{Mutex, MutexGuard, uninit, init, lock, try_lock, into_inner}

unready_unusable : ¬ IsUsable unready
unready_unusable h = elim h [ ]

broken_unusable : ¬ IsUsable broken
broken_unusable h = elim h [ ]

module _ {sys : SysMutex} {InPhase : sys.Raw → Phase → Type 0} (laws : SysMutexLaws sys InPhase)
    {T : Type 0} where
  lock_panics :
      (th : Thread) (p : Phase) (m : Mutex sys T)
      → ¬ IsUsable p
      → InPhase m.inner p
      → (lock sys th m ≡ (panicked, m)) × (try_lock sys th m ≡ (panicked, m))
  unfolding lock try_lock
  lock_panics th p m ne h = (
    ground (arith, laws.lock_unusable th p m.inner ne h),
    ground (arith, laws.try_lock_unusable th p m.inner ne h),
  )

  -- Before `init`, `lock` and `try_lock` panic and change nothing, and `into_inner` gives the value
  -- back. `init` works once: after it a thread can lock the mutex. A second `init`, even while a
  -- thread has the guard, panics, and from then on `lock` and `try_lock` of any thread panic.
  pub init_once :
      (value : T) (th other : Thread)
      → (lock sys th (uninit sys value) ≡ (panicked, uninit sys value))
        × (try_lock sys th (uninit sys value) ≡ (panicked, uninit sys value))
        × (into_inner sys th (uninit sys value) ≡ ok value)
        × ((m : Mutex sys T) × (g : MutexGuard sys) × (m' : Mutex sys T) × (m'' : Mutex sys T)
            × (init sys (uninit sys value) ≡ (returned tt, m))
            × (lock sys th m ≡ (returned (ok g), m'))
            × (init sys m' ≡ (panicked, m''))
            × (lock sys other m'' ≡ (panicked, m''))
            × (try_lock sys other m'' ≡ (panicked, m'')))
  unfolding uninit init lock into_inner Poison.new Poison.borrow Poison.get Poison.map_result
  init_once value th other =
      let before = lock_panics th unready (uninit sys value) unready_unusable laws.uninit_unready in
      let (raw, e, f) = laws.init_unready sys.uninit laws.uninit_unready in
      let (g, raw', e', h) = laws.lock_free th raw f in
      let (raw'', e'', b) = laws.init_again raw' (held th.id) (λ q. cc) h in
      let m : sys.Raw → Mutex sys T =
        λ r. record { inner = r; poison = Poison.new; cell = value } in
      let after = lock_panics other broken (m raw'') broken_unusable b in
      (
        before.0,
        before.1,
        refl,
        (
          m raw,
          record { guard = g; poison = record { panicking = th.panicking } },
          m raw',
          m raw'',
          ground arith,
          ground arith,
          ground arith,
          after.0,
          after.1,
        ),
      )
