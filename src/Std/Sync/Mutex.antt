-- ===== src/Std/Sync/Mutex.antt =====
-- `std::sync::Mutex<()>`. What `lock` does in the thread that holds the mutex already is left open but
-- for that it does not return: it deadlocks, or it panics where `relock_panics` says so.
use pinned_sync.Base.{ℕ, Bool, false, ◌&&◌, Option, none, some, ◌==◌, if◌then◌else◌}
use pinned_sync.Effect.{returned, panicked, blocked, M}
use pinned_sync.Std.{err, would_block, LockResult, TryLockResult, try_result, Thread}
use pinned_sync.Std.Sync.Guard.{StdGuard, guard_result, fails, guard_of}

pub record Mutex : Type 0 where
  pub owner : Option ℕ
  pub failed : Bool

abbrev pub new : Mutex
new = record { owner = none; failed = false }

abbrev pub lock : (relock_panics : Bool) → Thread → M Mutex (LockResult StdGuard)
lock relock_panics th m = elim m.owner [
  | none ↦ (returned (guard_result m.failed (guard_of th)), record m { owner = some th.id })
  | some u ↦ (if relock_panics && th.id == u then panicked else blocked, m)
]

abbrev pub try_lock : Thread → M Mutex (TryLockResult StdGuard)
try_lock th m = elim m.owner [
  | none ↦
      (returned (try_result (guard_result m.failed (guard_of th))), record m { owner = some th.id })
  | some u ↦ (returned (err would_block), m)
]

abbrev pub drop_guard : Thread → StdGuard → M Mutex (Unit {0})
drop_guard th g m = (returned tt, record { owner = none; failed = fails th g m.failed })
