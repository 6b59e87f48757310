-- ===== src/Tests/RwLocks.antt =====
-- Threads that share one `RwLock` over the fallback lock, and the contract over the pthread lock.
use pinned_sync.Base.{ℕ, ◌<◌, ◌≡◌, ◌≢◌, refl, ◌⊎◌, true, false, none, some, [], arith}
use pinned_sync.Effect.{returned, blocked, panicked}
use pinned_sync.Std.{ok, err, poison_error, LockResult, is_err, inner_of}
use pinned_sync.SysCommon.Poison
use pinned_sync.SysCommon.Poison.History.{any_panics}
use pinned_sync.SysCommon.InitAssert
use pinned_sync.Sys.Interface.{SysRwLock, SysRwLockLaws}
use pinned_sync.Sys.Fallback
use pinned_sync.Sys.Fallback.RwLock as Raw
use pinned_sync.Sys.Fallback.RwLock.Contract as Contract
use pinned_sync.Sys.Fallback.RwLock.Contract.{fallback_rw_lock-SysRwLockLaws}
use pinned_sync.Sys.Unix.RwLock as Pthread
use pinned_sync.Sys.Unix.RwLock.Access as UnixAccess
use pinned_sync.Sys.Unix.RwLock.Contract.{sys_rw_lock-SysRwLockLaws}
use pinned_sync.RwLock
use pinned_sync.RwLock.{RwLockReadGuard, RwLockWriteGuard}
use pinned_sync.RwLock.Threads.{
  System, Step, Reach, made, later, was_read, was_written, write_dropped, try_write_failed,
  add_read, add_write, end_write,
}
use pinned_sync.RwLock.Values.{last_written, rw_into_inner-last_written}
use pinned_sync.RwLock.Safety.{writer_excludes, readers_see_one_value, write_reports_writer_panics}
use pinned_sync.RwLock.Progress.{write_progress}
use pinned_sync.Tests.Inits.{alice, alice_panics, bob}
use pinned_sync.Tests.Pthreads.{pthread_rw_lock, posix_rw_lock}

sys_rw_lock-SysRwLockLaws_example :
    SysRwLockLaws
      (Pthread.sys_rw_lock pthread_rw_lock true)
      (UnixAccess.InAccess pthread_rw_lock true posix_rw_lock)
sys_rw_lock-SysRwLockLaws_example = sys_rw_lock-SysRwLockLaws pthread_rw_lock true posix_rw_lock

abbrev sys : SysRwLock
sys = Raw.sys_rw_lock

abbrev lock_with : Raw.RwLock → Poison.Flag → RwLock.RwLock sys ℕ
lock_with raw flag = record { inner = raw; poison = flag; cell = 5 }

abbrev read_guard : RwLockReadGuard sys
read_guard = record { guard = tt }

abbrev write_guard : RwLockWriteGuard sys
write_guard = record { guard = record { panicking = false }; poison = record { panicking = false } }

abbrev start : System sys ℕ
start = record {
  lock = lock_with (Contract.ready 0 none false) Poison.new;
  reads = 0;
  writers = λ _. none;
  begun = λ _. alice;
  history = [];
}

start-Reach : Reach sys ℕ start
unfolding RwLock.boxed RwLock.init RwLock.uninit Raw.init Raw.uninit InitAssert.init InitAssert.new
start-Reach = made 5 (λ _. alice) refl

-- Alice writes.
abbrev alice_writes : System sys ℕ
alice_writes =
    add_write sys ℕ start alice (lock_with (Contract.ready 0 (some 0) false) Poison.new) write_guard

alice_writes-Reach : Reach sys ℕ alice_writes
unfolding RwLock.write Raw.write InitAssert.get_ref InitAssert.get Poison.borrow Poison.new
    Poison.map_result Fallback.ignore_poison
alice_writes-Reach = later start-Reach (was_written alice {r = ok write_guard} refl)

writer_excludes_example : (alice_writes.reads ≡ 0) × (alice.id ≡ alice.id)
writer_excludes_example =
    writer_excludes sys Contract.InAccess fallback_rw_lock-SysRwLockLaws alice_writes-Reach 0 0 refl
      refl

write_progress_example :
    ((alice_writes.reads ≡ 0)
      × ((i : ℕ) → alice_writes.writers i ≡ none)
      × ((r : LockResult (RwLockWriteGuard sys)) × (m : RwLock.RwLock sys ℕ) × (RwLock.write sys bob
              alice_writes.lock
            ≡ (returned r, m))))
    ⊎ (((0 < alice_writes.reads) ⊎ ((u : ℕ) × (alice_writes.writers u ≢ none)))
        × ((RwLock.write sys bob alice_writes.lock ≡ (blocked, alice_writes.lock))
            ⊎ (RwLock.write sys bob alice_writes.lock ≡ (panicked, alice_writes.lock))))
write_progress_example =
    write_progress sys Contract.InAccess fallback_rw_lock-SysRwLockLaws alice_writes-Reach bob

-- Alice panics with the write guard.
abbrev failed : Poison.Flag
failed = record { failed = true }

abbrev alice_out : System sys ℕ
alice_out =
    end_write sys ℕ alice_writes alice_panics (lock_with (Contract.ready 0 none true) failed)

alice_out-Reach : Reach sys ℕ alice_out
unfolding RwLock.drop_write Raw.drop_write Poison.done Poison.new
alice_out-Reach = later alice_writes-Reach (write_dropped alice_panics {g = write_guard} refl refl)

abbrev bob_writes : RwLock.RwLock sys ℕ
bob_writes = lock_with (Contract.ready 0 (some 1) true) failed

abbrev bob_sees : LockResult (RwLockWriteGuard sys)
bob_sees = err (poison_error write_guard)

write_reports_writer_panics_example :
    (is_err bob_sees ≡ any_panics alice_out.history)
    × ((inner_of bob_sees).poison.panicking ≡ bob.panicking)
    × (bob_writes.cell ≡ alice_out.lock.cell)
unfolding RwLock.write Raw.write InitAssert.get_ref InitAssert.get Poison.borrow Poison.map_result
    Fallback.ignore_poison
write_reports_writer_panics_example =
    write_reports_writer_panics sys Contract.InAccess fallback_rw_lock-SysRwLockLaws alice_out-Reach
      bob bob_sees bob_writes refl

rw_into_inner-last_written_example :
    (inner_of (RwLock.into_inner sys bob alice_out.lock) ≡ last_written alice_out-Reach)
    × (is_err (RwLock.into_inner sys bob alice_out.lock) ≡ any_panics alice_out.history)
    × (RwLock.get_mut sys bob alice_out.lock ≡ RwLock.into_inner sys bob alice_out.lock)
    × (RwLock.deref sys read_guard alice_out.lock ≡ last_written alice_out-Reach)
    × (RwLock.deref_write sys write_guard alice_out.lock ≡ last_written alice_out-Reach)
rw_into_inner-last_written_example =
    rw_into_inner-last_written sys Contract.InAccess fallback_rw_lock-SysRwLockLaws alice_out-Reach
      bob read_guard write_guard

-- Alice reads, and Bob tries to write.
abbrev alice_reads : System sys ℕ
alice_reads = add_read sys ℕ start (lock_with (Contract.ready 1 none false) Poison.new)

alice_reads-Reach : Reach sys ℕ alice_reads
unfolding RwLock.read Raw.read InitAssert.get_ref InitAssert.get Poison.borrow Poison.new
    Poison.map_result Fallback.ignore_poison
alice_reads-Reach = later start-Reach (was_read alice {r = ok read_guard} (omega arith) refl)

bob_tries : Step sys ℕ alice_reads alice_reads
unfolding RwLock.try_write Raw.try_write InitAssert.get_ref InitAssert.get
    Fallback.try_ignore_poison
bob_tries = try_write_failed bob refl

readers_see_one_value_example : alice_reads.lock.cell ≡ alice_reads.lock.cell
readers_see_one_value_example =
    readers_see_one_value sys Contract.InAccess fallback_rw_lock-SysRwLockLaws alice_reads-Reach
      bob_tries (omega arith)
