-- ===== src/Mutex/Threads.antt =====
-- Any number of threads that use one `Mutex` (src/mutex.rs), in any order of their calls.
use pinned_sync.Base.{ℕ, ◌≡◌, Option, none, some, List, [], ◌∷◌, update}
use pinned_sync.Effect.{returned}
use pinned_sync.Std.{ok, err, poisoned, would_block, LockResult, PoisonError, inner_of, Thread}
use pinned_sync.SysCommon.Poison.History.{Section}
use pinned_sync.Sys.Interface.{SysMutex}
use pinned_sync.Mutex.{Mutex, MutexGuard, boxed, lock, try_lock, deref_mut, drop_guard}

module _ (sys : SysMutex) (T : Type 0) where
  -- `history` holds the critical sections that have ended, the latest first, and `begun` the thread
  -- as it was when it took the guard that it holds.
  pub record System : Type 0 where
    pub mutex : Mutex sys T
    pub guards : ℕ → Option (MutexGuard sys)
    pub begun : ℕ → Thread
    pub history : List Section

  abbrev pub acquire : System → Thread → Mutex sys T → MutexGuard sys → System
  acquire s th m g = record {
    mutex = m;
    guards = update s.guards th.id (some g);
    begun = update s.begun th.id th;
    history = s.history;
  }

  abbrev pub release : System → Thread → Mutex sys T → System
  release s th m = record {
    mutex = m;
    guards = update s.guards th.id none;
    begun = s.begun;
    history = record { begun = s.begun th.id; ended = th } ∷ s.history;
  }

  -- One call that returns. A thread that holds a guard may call the lock methods too. The value is
  -- written only through a guard, and only the holder drops its guard, panicking or not.
  pub data Step (s : System) : System → Type 0 where
    locked :
        (th : Thread) {r : LockResult (MutexGuard sys)} {m : Mutex sys T}
        → lock sys th s.mutex ≡ (returned r, m)
        → Step s (acquire s th m (inner_of r))
    try_locked :
        (th : Thread) {g : MutexGuard sys} {m : Mutex sys T}
        → try_lock sys th s.mutex ≡ (returned (ok g), m)
        → Step s (acquire s th m g)
    try_locked_poisoned :
        (th : Thread) {e : PoisonError (MutexGuard sys)} {m : Mutex sys T}
        → try_lock sys th s.mutex ≡ (returned (err (poisoned e)), m)
        → Step s (acquire s th m e.guard)
    try_failed :
        (th : Thread) {m : Mutex sys T}
        → try_lock sys th s.mutex ≡ (returned (err would_block), m)
        → Step s (record s { mutex = m })
    wrote :
        (th : Thread) {g : MutexGuard sys} {m : Mutex sys T} (value : T)
        → s.guards th.id ≡ some g
        → deref_mut sys g value s.mutex ≡ (returned tt, m)
        → Step s (record s { mutex = m })
    dropped :
        (th : Thread) {g : MutexGuard sys} {m : Mutex sys T}
        → s.guards th.id ≡ some g
        → drop_guard sys th g s.mutex ≡ (returned tt, m)
        → Step s (release s th m)

  -- The thread that makes the call.
  abbrev pub actor : {s t : System} → Step s t → Thread
  actor (locked th _) = th
  actor (try_locked th _) = th
  actor (try_locked_poisoned th _) = th
  actor (try_failed th _) = th
  actor (wrote th _ _ _) = th
  actor (dropped th _ _) = th

  -- From a mutex made by `boxed`, before any thread has a guard.
  pub data Reach : System → Type 0 where
    made :
        (value : T) (begun : ℕ → Thread) {m : Mutex sys T}
        → boxed sys value ≡ (returned tt, m)
        → Reach (record { mutex = m; guards = λ _. none; begun = begun; history = [] })
    later : {s t : System} → Reach s → Step s t → Reach t
