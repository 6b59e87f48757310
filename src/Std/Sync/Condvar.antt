-- ===== src/Std/Sync/Condvar.antt =====
-- `std::sync::Condvar`. A call that waits lets other threads run, so it works on the whole world
-- `W` with the object in it; how the library does it is left open.
use pinned_sync.Base.{ℕ, Bool}
use pinned_sync.Effect.{M}
use pinned_sync.Std.{LockResult, Thread}
use pinned_sync.Std.Sync.Guard.{StdGuard}

-- Durations are in nanoseconds; the Boolean of `wait_timeout` is `timed_out()` of its result.
pub record StdCondvar (W : Type 0) : Type 1 where
  pub Cond : Type 0
  pub new : Cond
  pub notify_one : M (Cond × W) (Unit {0})
  pub notify_all : M (Cond × W) (Unit {0})
  pub wait : Thread → StdGuard → M (Cond × W) (LockResult StdGuard)
  pub wait_timeout : Thread → StdGuard → (dur : ℕ) → M (Cond × W) (LockResult (StdGuard × Bool))
