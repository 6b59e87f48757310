-- ===== src/Condvar/OverUnix/Timed.antt =====
-- `wait_timeout_while` of src/condvar.rs over the timed wait of src/sys/unix/condvar.rs.
use pinned_sync.Base.{ℕ, ◌+◌, ◌<◌, ◌≤◌, ◌≡◌, ◌⊎◌, Bool, some}
use pinned_sync.Std.{Thread}
use pinned_sync.SysCommon.InitAssert
use pinned_sync.SysCommon.InitAssert.{init_state}
use pinned_sync.Sys.Interface.{held}
use pinned_sync.Sys.Unix.Libc.{PthreadMutex, PosixMutex, PthreadCond}
use pinned_sync.Sys.Unix.Mutex as Raw
use pinned_sync.Sys.Unix.Mutex.Contract.{InPhase}
use pinned_sync.Sys.Unix.Condvar as RawCondvar
use pinned_sync.Sys.Unix.Condvar.Time.{Timespec, giga}
use pinned_sync.Sys.Unix.Condvar.Deadline.{nanos_of}
use pinned_sync.Condvar.OverUnix.{Rest, World}

module _ {mutex_api : PthreadMutex} (debug : Bool) (posix : PosixMutex mutex_api) {T : Type 0}
    (api : PthreadCond (Rest mutex_api debug T)) where
  open api use {Cond, etimedout, cond_timedwait, clock_gettime}

  -- `clock_gettime` reads the clock of `Instant`. A timed wait by the thread that holds the mutex
  -- returns, with 0 or ETIMEDOUT and with the mutex held by it again, at most `latency` after its
  -- deadline, or after its start where the deadline has passed. The clock does not go back; it may
  -- stand still over `still c` waits in a row, and over at most `most`.
  pub record PosixTimedWait (still : Cond → ℕ) (most latency : ℕ) : Type 0 where
    pub gettime :
        (r : Rest mutex_api debug T)
        → ((clock_gettime r).0 ≡ 0)
          × (nanos_of (clock_gettime r).1 ≡ r.clock)
          × ((clock_gettime r).1.tv_nsec < giga)
    pub timedwait :
        (t : ℕ) (d : Timespec) (c : Cond) (r : Rest mutex_api debug T)
        → InPhase mutex_api debug posix r.mutex.inner (held t)
        → (code : ℕ) × (c' : Cond) × (r' : Rest mutex_api debug T) × (cond_timedwait t d (c, r)
            ≡ some (code, (c', r')))
          × ((code ≡ etimedout) ⊎ (code ≡ 0))
          × InPhase mutex_api debug posix r'.mutex.inner (held t)
          × ((r'.clock ≤ nanos_of d + latency) ⊎ (r'.clock ≤ r.clock + latency))
          × ((r.clock < r'.clock) ⊎ ((r.clock ≤ r'.clock) × (still c' < still c)))
          × (still c' ≤ most)

  -- The condition variable is initialized, and the thread holds the mutex.
  abbrev pub Good : Thread → World mutex_api debug T api → Type 0
  Good th w =
      (w.0.initialized.state ≡ init_state)
      × InPhase mutex_api debug posix w.1.mutex.inner (held th.id)

  module _ (still : Cond → ℕ) (most latency : ℕ) (timed : PosixTimedWait still most latency)
      (th : Thread) where
    abbrev still_in : World mutex_api debug T api → ℕ
    still_in w = still w.0.inner
