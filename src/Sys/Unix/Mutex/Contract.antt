-- ===== src/Sys/Unix/Mutex/Contract.antt =====
-- The contract of `SysMutex` for src/sys/unix/mutex.rs over a POSIX mutex.
use pinned_sync.Base.{false, ℕ, ◌≡◌, refl, ◌≢◌, ◌⊎◌, inl, inr, Bool, none, some, arith}
use pinned_sync.Effect.{returned, panicked, blocked}
use pinned_sync.Std.{Thread}
use pinned_sync.SysCommon.InitAssert
use pinned_sync.SysCommon.InitAssert.{InitAssert, init_state, in_progress_state}
use pinned_sync.Sys.Interface.{
  Phase, unready, broken, free, held, IsUsable, free_usable, held_usable, SysMutexLaws,
}
use pinned_sync.Sys.Unix.Libc.{PthreadMutex, PosixMutex}
use pinned_sync.Sys.Unix.Mutex.{
  Mutex, MutexGuard, mutex_guard, uninit, init, lock, try_lock, drop_guard, sys_mutex,
}

module _ (api : PthreadMutex) (debug : Bool) (posix : PosixMutex api) where
  open api use {Lock}
  open posix use {
    normal_attr, fresh_lock, owner, attr_init, attr_settype, attr_destroy, lock_init, fresh_unowned,
    lock_unowned, lock_owned, unlock_owned,
  }

  abbrev pub ready : Lock → Mutex api debug
  ready l = record { lock = record { state = init_state; cell = some l } }

  -- What memory looks like in each phase.
  abbrev pub InPhase : Mutex api debug → Phase → Type 0
  InPhase m unready = m ≡ uninit api debug
  InPhase m broken = m.lock.state ≡ in_progress_state
  InPhase m free = (l : Lock) × (m ≡ ready l) × (owner l ≡ none)
  InPhase m (held u) = (l : Lock) × (m ≡ ready l) × (owner l ≡ some u)

  free_not_held : (u : ℕ) (m : Mutex api debug) → InPhase m free → ¬ InPhase m (held u)
  free_not_held u m (l, e, f) (l', e', f') = ground arith

  init_unready :
      (m : Mutex api debug)
      → InPhase m unready
      → (m' : Mutex api debug) × (init api debug m ≡ (returned tt, m')) × InPhase m' free
  unfolding uninit init InitAssert.new
  init_unready m e = (
    ready fresh_lock,
    ground (arith, attr_init, attr_settype, attr_destroy normal_attr, lock_init),
    (fresh_lock, refl, fresh_unowned),
  )

  init_again :
      (m : Mutex api debug) (p : Phase)
      → p ≢ unready
      → InPhase m p
      → (m' : Mutex api debug) × (init api debug m ≡ (panicked, m')) × InPhase m' broken
  unfolding init
  init_again m unready ne h = absurd (ne refl)
  init_again m broken ne h = ((init api debug m).1, ground arith, ground arith)
  init_again m free ne h = ((init api debug m).1, ground arith, ground arith)
  init_again m (held u) ne h = ((init api debug m).1, ground arith, ground arith)

  lock_free :
      (th : Thread) (m : Mutex api debug)
      → InPhase m free
      → (g : MutexGuard) × (m' : Mutex api debug) × (lock api debug th m ≡ (returned g, m'))
        × InPhase m' (held th.id)
  unfolding lock
  lock_free th m (l, e, f) =
      let (l', c, o) = lock_unowned th.id l f in
      (mutex_guard, ready l', ground arith, (l', refl, o))

  lock_held :
      (th : Thread) (u : ℕ) (m : Mutex api debug)
      → InPhase m (held u)
      → lock api debug th m ≡ (blocked, m)
  unfolding lock
  lock_held th u m (l, e, f) = ground (arith, lock_owned th.id u l f)

  lock_unusable :
      (th : Thread) (p : Phase) (m : Mutex api debug)
      → ¬ IsUsable p
      → InPhase m p
      → lock api debug th m ≡ (panicked, m)
  unfolding lock uninit InitAssert.new
  lock_unusable th unready m ne e = ground arith
  lock_unusable th broken m ne e = ground arith
  lock_unusable th free m ne e = absurd (ne free_usable)
  lock_unusable th (held u) m ne e = absurd (ne (held_usable u))

  try_lock_unusable :
      (th : Thread) (p : Phase) (m : Mutex api debug)
      → ¬ IsUsable p
      → InPhase m p
      → try_lock api debug th m ≡ (panicked, m)
  unfolding try_lock uninit InitAssert.new
  try_lock_unusable th unready m ne e = ground arith
  try_lock_unusable th broken m ne e = ground arith
  try_lock_unusable th free m ne e = absurd (ne free_usable)
  try_lock_unusable th (held u) m ne e = absurd (ne (held_usable u))

  try_lock_free :
      (th : Thread) (m : Mutex api debug)
      → InPhase m free
      → (g : MutexGuard) × (m' : Mutex api debug) × (try_lock api debug th m
          ≡ (returned (some g), m'))
        × InPhase m' (held th.id)
  unfolding try_lock
  try_lock_free th m (l, e, f) =
      let (l', c, o) = lock_unowned th.id l f in
      (mutex_guard, ready l', ground arith, (l', refl, o))

  try_lock_held :
      (th : Thread) (u : ℕ) (m : Mutex api debug)
      → InPhase m (held u)
      → try_lock api debug th m ≡ (blocked, m)
  unfolding try_lock
  try_lock_held th u m (l, e, f) = ground (arith, lock_owned th.id u l f)

  -- On an initialized mutex `try_lock` waits exactly when `lock` does: on a free mutex both take
  -- it, and on one that a thread holds, the caller or another, both wait. `try_lock` never returns
  -- nothing there.
  pub try_lock_waits :
      (th : Thread) (p : Phase) (m : Mutex api debug)
      → IsUsable p
      → InPhase m p
      → ((p ≡ free)
          × ((m' : Mutex api debug) × (lock api debug th m ≡ (returned mutex_guard, m'))
              × (try_lock api debug th m ≡ (returned (some mutex_guard), m'))))
        ⊎ (((u : ℕ) × (p ≡ held u))
            × (lock api debug th m ≡ (blocked, m))
            × (try_lock api debug th m ≡ (blocked, m)))
  unfolding lock try_lock
  try_lock_waits th _ m free_usable (l, e, f) =
      let (l', c, o) = lock_unowned th.id l f in inl (refl, (ready l', ground arith, ground arith))
  try_lock_waits th _ m (held_usable u) h =
      inr ((u, refl), lock_held th u m h, try_lock_held th u m h)

  drop_guard_held :
      (th : Thread) (g : MutexGuard) (m : Mutex api debug)
      → InPhase m (held th.id)
      → (m' : Mutex api debug) × (drop_guard api debug th g m ≡ (returned tt, m')) × InPhase m' free
  unfolding drop_guard
  drop_guard_held th g m (l, e, f) =
      let (l', c, o) = unlock_owned th.id l f in (ready l', ground arith, (l', refl, o))

  -- Over a POSIX mutex the pthread implementation keeps the whole contract of `sys::mutex`.
  pub sys_mutex-SysMutexLaws : SysMutexLaws (sys_mutex api debug) InPhase
  sys_mutex-SysMutexLaws = record {
    free_not_held = free_not_held;
    uninit_unready = refl;
    init_unready = init_unready;
    init_again = init_again;
    lock_free = lock_free;
    relock_panics = false;
    lock_held = lock_held;
    lock_unusable = lock_unusable;
    try_lock_unusable = try_lock_unusable;
    try_lock_free = try_lock_free;
    try_lock_held = λ th u m h. inr (try_lock_held th u m h);
    drop_guard_held = drop_guard_held;
  }
