-- ===== src/RwLock/Threads.antt =====
-- Any number of threads that use one `RwLock` (src/rwlock.rs), in any order of their calls.
use pinned_sync.Base.{ℕ, suc, ◌<◌, ◌≡◌, Option, none, some, List, [], ◌∷◌, update, usize_mod}
use pinned_sync.Effect.{returned}
use pinned_sync.Std.{ok, err, poisoned, would_block, LockResult, PoisonError, inner_of, Thread}
use pinned_sync.SysCommon.Poison.History.{Section}
use pinned_sync.Sys.Interface.{SysRwLock}
use pinned_sync.RwLock.{
  RwLock, RwLockReadGuard, RwLockWriteGuard, boxed, read, try_read, write, try_write, deref_mut,
  drop_read, drop_write,
}

module _ (sys : SysRwLock) (T : Type 0) where
  -- `reads` counts the read guards, `writers` has the write guard of each thread; `history` holds
  -- the sections of write guards that have ended.
  pub record System : Type 0 where
    pub lock : RwLock sys T
    pub reads : ℕ
    pub writers : ℕ → Option (RwLockWriteGuard sys)
    pub begun : ℕ → Thread
    pub history : List Section

  abbrev pub add_read : System → RwLock sys T → System
  add_read s m = record s { lock = m; reads = suc s.reads }

  abbrev pub add_write : System → Thread → RwLock sys T → RwLockWriteGuard sys → System
  add_write s th m g = record {
    lock = m;
    reads = s.reads;
    writers = update s.writers th.id (some g);
    begun = update s.begun th.id th;
    history = s.history;
  }

  abbrev pub end_write : System → Thread → RwLock sys T → System
  end_write s th m = record {
    lock = m;
    reads = s.reads;
    writers = update s.writers th.id none;
    begun = s.begun;
    history = record { begun = s.begun th.id; ended = th } ∷ s.history;
  }

  -- One call that returns. Memory has no room for `2 ^ 64` read guards.
  pub data Step (s : System) : System → Type 0 where
    was_read :
        (th : Thread) {r : LockResult (RwLockReadGuard sys)} {m : RwLock sys T}
        → suc s.reads < usize_mod
        → read sys th s.lock ≡ (returned r, m)
        → Step s (add_read s m)
    try_was_read :
        (th : Thread) {g : RwLockReadGuard sys} {m : RwLock sys T}
        → suc s.reads < usize_mod
        → try_read sys th s.lock ≡ (returned (ok g), m)
        → Step s (add_read s m)
    try_was_read_poisoned :
        (th : Thread) {e : PoisonError (RwLockReadGuard sys)} {m : RwLock sys T}
        → suc s.reads < usize_mod
        → try_read sys th s.lock ≡ (returned (err (poisoned e)), m)
        → Step s (add_read s m)
    try_read_failed :
        (th : Thread) {m : RwLock sys T}
        → suc s.reads < usize_mod
        → try_read sys th s.lock ≡ (returned (err would_block), m)
        → Step s (record s { lock = m })
    was_written :
        (th : Thread) {r : LockResult (RwLockWriteGuard sys)} {m : RwLock sys T}
        → write sys th s.lock ≡ (returned r, m)
        → Step s (add_write s th m (inner_of r))
    try_was_written :
        (th : Thread) {g : RwLockWriteGuard sys} {m : RwLock sys T}
        → try_write sys th s.lock ≡ (returned (ok g), m)
        → Step s (add_write s th m g)
    try_was_written_poisoned :
        (th : Thread) {e : PoisonError (RwLockWriteGuard sys)} {m : RwLock sys T}
        → try_write sys th s.lock ≡ (returned (err (poisoned e)), m)
        → Step s (add_write s th m e.guard)
    try_write_failed :
        (th : Thread) {m : RwLock sys T}
        → try_write sys th s.lock ≡ (returned (err would_block), m)
        → Step s (record s { lock = m })
    assigned :
        (th : Thread) {g : RwLockWriteGuard sys} {m : RwLock sys T} (value : T)
        → s.writers th.id ≡ some g
        → deref_mut sys g value s.lock ≡ (returned tt, m)
        → Step s (record s { lock = m })
    read_dropped :
        (th : Thread) (g : RwLockReadGuard sys) {c : ℕ} {m : RwLock sys T}
        → s.reads ≡ suc c
        → drop_read sys th g s.lock ≡ (returned tt, m)
        → Step s (record s { lock = m; reads = c })
    write_dropped :
        (th : Thread) {g : RwLockWriteGuard sys} {m : RwLock sys T}
        → s.writers th.id ≡ some g
        → drop_write sys th g s.lock ≡ (returned tt, m)
        → Step s (end_write s th m)

  -- From a lock made by `boxed`, before any thread has a guard.
  pub data Reach : System → Type 0 where
    made :
        (value : T) (begun : ℕ → Thread) {m : RwLock sys T}
        → boxed sys value ≡ (returned tt, m)
        → Reach (record { lock = m; reads = 0; writers = λ _. none; begun = begun; history = [] })
    later : {s t : System} → Reach s → Step s t → Reach t
