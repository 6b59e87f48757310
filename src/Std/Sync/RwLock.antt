-- ===== src/Std/Sync/RwLock.antt =====
-- `std::sync::RwLock<()>`.
use pinned_sync.Base.{ℕ, zero, suc, ◌-◌, Bool, true, false, ◌&&◌, Option, none, some, if◌then◌else◌}
use pinned_sync.Effect.{returned, blocked, M}
use pinned_sync.Std.{
  ok, err, would_block, LockResult, TryLockResult, poison_error, try_result, Thread,
}
use pinned_sync.Std.Sync.Guard.{StdGuard, guard_result, fails, guard_of}

pub record RwLock : Type 0 where
  pub readers : ℕ
  pub writer : Option ℕ
  pub failed : Bool

abbrev pub new : RwLock
new = record { readers = 0; writer = none; failed = false }

-- What a reader may do, and a writer.
abbrev can_read : RwLock → Bool
can_read l = elim l.writer [ none ↦ true | some _ ↦ false ]

abbrev can_write : RwLock → Bool
can_write l = can_read l && elim l.readers [ zero ↦ true | suc _ ↦ false ]

abbrev pub read : Thread → M RwLock (LockResult (Unit {0}))
read th l =
    if can_read l
    then (
      returned (if l.failed then err (poison_error tt) else ok tt),
      record l { readers = suc l.readers },
    )
    else (blocked, l)

abbrev pub try_read : Thread → M RwLock (TryLockResult (Unit {0}))
try_read th l =
    if can_read l
    then (
      returned (try_result (if l.failed then err (poison_error tt) else ok tt)),
      record l { readers = suc l.readers },
    )
    else (returned (err would_block), l)

abbrev pub write : Thread → M RwLock (LockResult StdGuard)
write th l =
    if can_write l
    then (returned (guard_result l.failed (guard_of th)), record l { writer = some th.id })
    else (blocked, l)

abbrev pub try_write : Thread → M RwLock (TryLockResult StdGuard)
try_write th l =
    if can_write l
    then (
      returned (try_result (guard_result l.failed (guard_of th))),
      record l { writer = some th.id },
    )
    else (returned (err would_block), l)

abbrev pub drop_read : M RwLock (Unit {0})
drop_read l = (returned tt, record l { readers = l.readers - 1 })

abbrev pub drop_write : Thread → StdGuard → M RwLock (Unit {0})
drop_write th g l = (returned tt, record l { writer = none; failed = fails th g l.failed })
