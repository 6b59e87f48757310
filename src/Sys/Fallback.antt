-- ===== src/Sys/Fallback.antt =====
-- src/sys/fallback: the primitives over those of the standard library, whose own poison flags they
-- ignore.
pub mod Mutex
pub mod RwLock
pub mod Condvar
use pinned_sync.Base.{Option, none, some}
use pinned_sync.Std.{ok, err, poisoned, would_block, LockResult, TryLockResult}

unfoldable pub try_ignore_poison {ℓ} : {T : Type ℓ} → TryLockResult T → Option T
try_ignore_poison (ok lock) = some lock
try_ignore_poison (err (poisoned error)) = some error.guard
try_ignore_poison (err would_block) = none

unfoldable pub ignore_poison {ℓ} : {T : Type ℓ} → LockResult T → T
ignore_poison (ok lock) = lock
ignore_poison (err error) = error.guard
