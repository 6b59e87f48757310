-- ===== src/Condvar/Threads.antt =====
-- Any number of threads that use one `Mutex` and wait on one `Condvar` with its guard
-- (src/condvar.rs over src/mutex.rs). A wait is two steps: it gives the platform's mutex up and
-- sleeps, and, once it is woken, takes the mutex again and goes through the end of
-- `MutexGuard::map`.
pub mod Invariant
pub mod Safety
pub mod Monitor
use pinned_sync.Base.{ℕ, ◌≡◌, ◌≢◌, Option, none, some, [], update}
use pinned_sync.Effect.{returned}
use pinned_sync.Std.{LockResult, inner_of, Thread}
use pinned_sync.SysCommon.Poison
use pinned_sync.Sys.Interface.{SysMutex}
use pinned_sync.Mutex
use pinned_sync.Mutex.{MutexGuard}
use pinned_sync.Mutex.Threads as Calls
use pinned_sync.Mutex.Threads.{actor}

-- A thread in `wait` keeps the note of the panic state from its guard.
pub data Waiter : Type 0 where
  awake : Waiter
  asleep : (note : Poison.Guard) → Waiter
  woken : (note : Poison.Guard) → Waiter

abbrev pub rouse : Waiter → Waiter
rouse awake = awake
rouse (asleep note) = woken note
rouse (woken note) = woken note

module _ (sys : SysMutex) (T : Type 0) where
  pub record System : Type 0 where
    pub base : Calls.System sys T
    pub waiting : ℕ → Waiter

  -- The guard of the thread is gone, and the mutex is `raw`, but its section has not ended.
  abbrev pub suspend : Calls.System sys T → Thread → sys.Raw → Calls.System sys T
  suspend s th raw = record s {
    mutex = record s.mutex { inner = raw };
    guards = update s.guards th.id none;
  }

  abbrev pub resume :
      Calls.System sys T → Thread → Mutex.Mutex sys T → MutexGuard sys → Calls.System sys T
  resume s th m g = record s { mutex = m; guards = update s.guards th.id (some g) }

  pub data Step (s : System) : System → Type 0 where
    acts :
        {t : Calls.System sys T} (st : Calls.Step sys T s.base t)
        → s.waiting (actor sys T st).id ≡ awake
        → Step s (record s { base = t })
    sleeps :
        (th : Thread) {g : MutexGuard sys} {raw : sys.Raw}
        → s.base.guards th.id ≡ some g
        → sys.drop_guard th g.guard s.base.mutex.inner ≡ (returned tt, raw)
        → Step s (record {
          base = suspend s.base th raw;
          waiting = update s.waiting th.id (asleep g.poison);
        })
    -- By itself, or by `notify_one`.
    wakes :
        (i : ℕ) {note : Poison.Guard}
        → s.waiting i ≡ asleep note
        → Step s (record s { waiting = update s.waiting i (woken note) })
    notified_all : Step s (record s { waiting = λ i. rouse (s.waiting i) })
    resumes :
        (th : Thread) {note : Poison.Guard} {raw_guard : sys.RawGuard} {raw : sys.Raw}
        {r : LockResult (MutexGuard sys)} {m : Mutex.Mutex sys T}
        → s.waiting th.id ≡ woken note
        → sys.lock th s.base.mutex.inner ≡ (returned raw_guard, raw)
        → Mutex.repoison sys
            (λ s. s)
            (record { guard = raw_guard; poison = note })
            (record s.base.mutex { inner = raw })
          ≡ (returned r, m)
        → Step s (record {
          base = resume s.base th m (inner_of r);
          waiting = update s.waiting th.id awake;
        })

  pub data Reach : System → Type 0 where
    made :
        (value : T) (begun : ℕ → Thread) {m : Mutex.Mutex sys T}
        → Mutex.boxed sys value ≡ (returned tt, m)
        → Reach (record {
          base = record { mutex = m; guards = λ _. none; begun = begun; history = [] };
          waiting = λ _. awake;
        })
    later : {s t : System} → Reach s → Step s t → Reach t
