-- ===== src/Sys/Unix/RwLock/CallRuns.antt =====
-- Every call of src/sys/unix/rwlock.rs is a run of its steps.
use pinned_sync.Base.{◌≢◌, Bool, true, false}
use pinned_sync.Std.{Thread}
use pinned_sync.Sys.Unix.Libc.{PthreadRwLock}
use pinned_sync.Sys.Unix.RwLock.{
  RwLock, read_guard, write_guard, try_read, read, try_write, write, drop_read, drop_write,
}
use pinned_sync.Sys.Unix.RwLock.Threads.{outside, reading, read_held, writing, write_held}
use pinned_sync.Sys.Unix.RwLock.Runs.{Ran}
use pinned_sync.Sys.Unix.RwLock.ReaderRuns.{read-Ran, drop_read-Ran}
use pinned_sync.Sys.Unix.RwLock.WriterRuns.{write-Ran, drop_write-Ran}
use pinned_sync.Sys.Unix.RwLock.TryRuns.{has_read, has_write, try_read-Ran, try_write-Ran}

-- On every state of the lock, over any C library whose EDEADLK is not 0 and in both builds, what
-- each of the six calls of the pthread RwLock does is what a run of its steps does that no other
-- thread interrupts: with a guard it ends where the guard is held, with none or by a panic where
-- the call is over or failed, and a call that waits stands before its call of pthreads.
pub calls_are_runs :
    (api : PthreadRwLock) (debug : Bool) (th : Thread) (m : RwLock api debug)
    → api.edeadlk ≢ 0
    → Ran api debug th.id m outside (λ _. read_held) (reading false) (read api debug th m)
      × Ran api debug th.id m outside has_read (reading true) (try_read api debug th m)
      × Ran api debug th.id m outside (λ _. write_held) (writing false) (write api debug th m)
      × Ran api debug th.id m outside has_write (writing true) (try_write api debug th m)
      × Ran api debug th.id m read_held (λ _. outside) outside (drop_read api debug th read_guard m)
      × Ran api debug th.id m write_held
          (λ _. outside)
          outside
          (drop_write api debug th write_guard m)
calls_are_runs api debug th m deadlk = (
  read-Ran api debug th m deadlk,
  try_read-Ran api debug th m,
  write-Ran api debug th m deadlk,
  try_write-Ran api debug th m,
  drop_read-Ran api debug th m,
  drop_write-Ran api debug th m,
)
