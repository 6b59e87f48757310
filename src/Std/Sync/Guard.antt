-- ===== src/Std/Sync/Guard.antt =====
-- The guard of a library lock that can be poisoned.
use pinned_sync.Base.{Bool, not, ◌&&◌, ◌||◌, if◌then◌else◌}
use pinned_sync.Std.{ok, err, LockResult, poison_error, Thread}

-- The guard remembers whether its thread was panicking.
pub record StdGuard : Type 0 where
  pub panicking : Bool

abbrev pub guard_result : Bool → StdGuard → LockResult StdGuard
guard_result failed g = if failed then err (poison_error g) else ok g

abbrev pub fails : Thread → StdGuard → Bool → Bool
fails th g failed = failed || (not g.panicking && th.panicking)

abbrev pub guard_of : Thread → StdGuard
guard_of th = record { panicking = th.panicking }
