-- ===== src/Tests/Relaxed.antt =====
-- Thread 0 panics while it has the lock; thread 1 takes the lock after it
-- (src/sys_common/poison.rs).
use pinned_sync.Base.{◌≡◌, refl, true, false, arith, update}
use pinned_sync.Std.{ok, is_err, LockResult}
use pinned_sync.SysCommon.Poison.{Guard, new, borrow, get}
use pinned_sync.SysCommon.Poison.Relaxed.{
  outside, locked, held, leaving, System, start, Reach, here, later, lock_alone, borrowed,
  done_stores, unlock,
}
use pinned_sync.SysCommon.Poison.Fresh.{relaxed_is_enough}
use pinned_sync.Tests.Inits.{bob}

abbrev calm : LockResult Guard
calm = ok (record { panicking = false })

abbrev borrowed_by_0 : System
borrowed_by_0 = record start {
  known = update (update start.known 0 0) 0 0;
  pc = update (update start.pc 0 (locked true)) 0 (held true calm);
}

borrowed_by_0-Reach : Reach borrowed_by_0
unfolding borrow get new
borrowed_by_0-Reach =
    later (later here (lock_alone 0 refl (λ j. refl)))
      (borrowed 0 false 0 refl (omega arith) (omega arith))

abbrev locked_by_1 : System
locked_by_1 = record {
  writes = update start.writes 1 (record { failed = true });
  last = 1;
  known = update (update borrowed_by_0.known 0 1) 1 1;
  released = 1;
  panicked = true;
  pc = update (update (update borrowed_by_0.pc 0 (leaving true)) 0 outside) 1 (locked true);
}

locked_by_1-Reach : Reach locked_by_1
locked_by_1-Reach =
    later (later (later borrowed_by_0-Reach (done_stores 0 true refl refl)) (unlock 0 refl))
      (lock_alone 1 refl (λ j. ground arith))

relaxed_is_enough_example :
    (1 ≡ locked_by_1.last) × (is_err (borrow bob (locked_by_1.writes 1)) ≡ locked_by_1.panicked)
relaxed_is_enough_example =
    relaxed_is_enough locked_by_1-Reach 1 1 bob refl (omega arith) (omega arith)
