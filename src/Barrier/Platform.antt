-- ===== src/Barrier/Platform.antt =====
-- Threads that call `Barrier::wait` on the mutex of a platform (src/barrier.rs over src/mutex.rs).
-- The steps are those of Barrier/Threads, each made of the calls of `Mutex` that the code makes. A
-- wait on the condition variable is three steps: it gives the platform's mutex up, it ends, and it
-- takes the mutex again.
pub mod Relation
pub mod Matched
pub mod Simulation
pub mod Safety
pub mod Progress
pub mod Uses
pub mod Runs
pub mod Counting
pub mod Completion
pub mod Ended
pub mod Finish
pub mod Small
use pinned_sync.Base.{ℕ, ◌<◌, ◌≡◌, Bool, true, false, update}
use pinned_sync.Effect.{returned, panicked}
use pinned_sync.Std.{ok, err, PoisonError, Thread}
use pinned_sync.Sys.Interface.{SysMutex}
use pinned_sync.Mutex
use pinned_sync.Mutex.{Mutex, MutexGuard}
use pinned_sync.Barrier.{BarrierState, uninit_state, arrive, must_wait, BarrierWaitResult}
use pinned_sync.Barrier.Threads.{thread}

module _ (sys : SysMutex) where
  -- The local variables of one call, and whether the thread is panicking.
  pub record Frame : Type 0 where
    pub panicking : Bool
    pub lock : MutexGuard sys
    pub local_gen : ℕ

  pub data Pc : Type 0 where
    outside : Pc
    entering : (panicking : Bool) → Pc
    locked : (panicking : Bool) (lock : MutexGuard sys) → Pc
    testing : Frame → Pc
    sleeping : Frame → Pc
    woken : Frame → Pc
    notifying : Frame → Pc
    leaving : Frame → BarrierWaitResult → Pc
    failed : Pc

  abbrev pub counted : Bool → Frame → Pc
  counted true f = notifying f
  counted false f = testing f

  abbrev pub Lock : Type 0
  Lock = Mutex sys BarrierState

  -- What a wait that has the platform's mutex again returns: the last part of `MutexGuard::map`.
  abbrev pub rejoin : Frame → sys.RawGuard → MutexGuard sys
  rejoin f raw = record { guard = raw; poison = f.lock.poison }

  pub data Move (num_threads i : ℕ) (m : Lock) : Pc → Lock → Pc → Type 0 where
    call : (p : Bool) → Move num_threads i m outside m (entering p)
    lock :
        {p : Bool} {g : MutexGuard sys} {m' : Lock}
        → Mutex.lock sys (thread i p) m ≡ (returned (ok g), m')
        → Move num_threads i m (entering p) m' (locked p g)
    lock_poisoned :
        {p : Bool} {e : PoisonError (MutexGuard sys)} {m' m'' : Lock}
        → Mutex.lock sys (thread i p) m ≡ (returned (err e), m')
        → Mutex.drop_guard sys (thread i true) e.guard m' ≡ (returned tt, m'')
        → Move num_threads i m (entering p) m'' failed
    lock_panics :
        {p : Bool} {m' : Lock}
        → Mutex.lock sys (thread i p) m ≡ (panicked, m')
        → Move num_threads i m (entering p) m' failed
    count :
        {p : Bool} {g : MutexGuard sys} {leads : Bool} {st : BarrierState} {m' : Lock}
        → arrive num_threads m.cell ≡ (leads, st)
        → Mutex.deref_mut sys g st m ≡ (returned tt, m')
        → Move num_threads i m
            (locked p g)
            m'
            (counted leads (record { panicking = p; lock = g; local_gen = m.cell.generation_id }))
    sleep :
        {f : Frame} {raw : sys.Raw}
        → must_wait num_threads f.local_gen m.cell ≡ true
        → sys.drop_guard (thread i f.panicking) f.lock.guard m.inner ≡ (returned tt, raw)
        → Move num_threads i m (testing f) (record m { inner = raw }) (sleeping f)
    spurious : {f : Frame} → Move num_threads i m (sleeping f) m (woken f)
    relock :
        {f : Frame} {g : sys.RawGuard} {raw : sys.Raw} {lock : MutexGuard sys} {m' : Lock}
        → sys.lock (thread i f.panicking) m.inner ≡ (returned g, raw)
        → Mutex.repoison sys (λ s. s) (rejoin f g) (record m { inner = raw })
          ≡ (returned (ok lock), m')
        → Move num_threads i m (woken f) m' (testing (record f { lock = lock }))
    relock_poisoned :
        {f : Frame} {g : sys.RawGuard} {raw : sys.Raw} {e : PoisonError (MutexGuard sys)}
        {m' m'' : Lock}
        → sys.lock (thread i f.panicking) m.inner ≡ (returned g, raw)
        → Mutex.repoison sys (λ s. s) (rejoin f g) (record m { inner = raw })
          ≡ (returned (err e), m')
        → Mutex.drop_guard sys (thread i true) e.guard m' ≡ (returned tt, m'')
        → Move num_threads i m (woken f) m'' failed
    relock_panics :
        {f : Frame} {raw : sys.Raw}
        → sys.lock (thread i f.panicking) m.inner ≡ (panicked, raw)
        → Move num_threads i m (woken f) (record m { inner = raw }) failed
    pass :
        {f : Frame}
        → must_wait num_threads f.local_gen m.cell ≡ false
        → Move num_threads i m (testing f) m (leaving f (record { value = false }))
    leave :
        {f : Frame} {r : BarrierWaitResult} {m' : Lock}
        → Mutex.drop_guard sys (thread i f.panicking) f.lock m ≡ (returned tt, m')
        → Move num_threads i m (leaving f r) m' outside

  pub record System : Type 0 where
    pub mem : Lock
    pub pc : ℕ → Pc

  -- `notify_all` wakes every thread that sleeps on the condition variable.
  abbrev pub wake : Pc → Pc
  wake outside = outside
  wake (entering p) = entering p
  wake (locked p g) = locked p g
  wake (testing f) = testing f
  wake (sleeping f) = woken f
  wake (woken f) = woken f
  wake (notifying f) = notifying f
  wake (leaving f r) = leaving f r
  wake failed = failed

  pub data Step (threads num_threads : ℕ) (s : System) : System → Type 0 where
    pick :
        (i : ℕ) {m : Lock} {p : Pc}
        → i < threads
        → Move num_threads i s.mem (s.pc i) m p
        → Step threads num_threads s (record { mem = m; pc = update s.pc i p })
    notify_all :
        (i : ℕ) {f : Frame}
        → i < threads
        → s.pc i ≡ notifying f
        → Step threads num_threads s (record {
          mem = s.mem;
          pc = update (λ j. wake (s.pc j)) i (leaving f (record { value = true }));
        })

  -- From the lock of a barrier made by `boxed`.
  pub data Reach (threads num_threads : ℕ) : System → Type 0 where
    made :
        {m : Lock}
        → Mutex.boxed sys uninit_state ≡ (returned tt, m)
        → Reach threads num_threads (record { mem = m; pc = λ _. outside })
    later :
        {s t : System}
        → Reach threads num_threads s
        → Step threads num_threads s t
        → Reach threads num_threads t
