-- ===== src/Tests/Platforms.antt =====
-- A barrier for two over the fallback mutex: thread 0 counts itself and sleeps (src/barrier.rs).
use pinned_sync.Base.{
  ℕ, ◌+◌, ◌*◌, ◌≤◌, ◌<◌, total, ◌≡◌, ◌≢◌, ◌⊎◌, refl, true, false, none, some, update, arith,
}
use pinned_sync.SysCommon.Poison
use pinned_sync.SysCommon.InitAssert
use pinned_sync.Sys.Interface.{SysMutex, held}
use pinned_sync.Sys.Fallback
use pinned_sync.Sys.Fallback.Mutex as Raw
use pinned_sync.Sys.Fallback.Mutex.Contract as Contract
use pinned_sync.Sys.Fallback.Mutex.Contract.{fallback_mutex-SysMutexLaws}
use pinned_sync.Mutex
use pinned_sync.Mutex.{MutexGuard, is_poisoned}
use pinned_sync.Barrier.{arrive, must_wait, uninit_state}
use pinned_sync.Barrier.Threads as Abstract
use pinned_sync.Barrier.Platform.{
  Frame, outside, entering, locked, testing, sleeping, woken, notifying, leaving, failed, wake,
  notify_all, Lock, System, Reach, made, later, pick, call, lock, count, sleep, spurious,
}
use pinned_sync.Tests.Inits.{alice, bob}
use pinned_sync.Barrier.Platform.Relation.{Like}
use pinned_sync.Barrier.Platform.Simulation.{refines}
use pinned_sync.Barrier.Platform.Safety.{holds, calls_never_fail}
use pinned_sync.Barrier.Platform.Uses.{ThroughCalls, barrier_uses_condvar}
use pinned_sync.Barrier.Platform.Progress.{is_awake}
use pinned_sync.Barrier.Platform.Small.{follows, small_barriers_never_wait}
use pinned_sync.Barrier.Platform.Runs.{tally, runs_are_short}
use pinned_sync.Barrier.Platform.Counting.{in_call}
use pinned_sync.Barrier.Platform.Ended.{quiet_from_outside, ended_runs_are_complete}
use pinned_sync.Barrier.Platform.Finish.{Continues, extend, calls_finish}

abbrev sys : SysMutex
sys = Raw.sys_mutex false

abbrev guard : MutexGuard sys
guard = record { guard = record { panicking = false }; poison = record { panicking = false } }

abbrev frame : Frame sys
frame = record { panicking = false; lock = guard; local_gen = 0 }

abbrev lock_with : Raw.Mutex → ℕ → Lock sys
lock_with raw c = record {
  inner = raw;
  poison = record { failed = false };
  cell = record { count = c; generation_id = 0 };
}

abbrev start : System sys
start = record { mem = lock_with (Contract.ready none false) 0; pc = λ _. outside }

start-Reach : {n : ℕ} → Reach sys 2 n start
unfolding Mutex.boxed Mutex.init Mutex.uninit Raw.init Raw.uninit InitAssert.init InitAssert.new
    Poison.new uninit_state
start-Reach = made refl

abbrev inside : System sys
inside = record {
  mem = lock_with (Contract.ready (some 0) false) 0;
  pc = update (update start.pc 0 (entering false)) 0 (locked false guard);
}

inside-Reach : {n : ℕ} → Reach sys 2 n inside
unfolding Mutex.lock Raw.lock InitAssert.get_ref InitAssert.get Poison.borrow Poison.new
    Poison.map_result Fallback.ignore_poison
inside-Reach =
    later (later start-Reach (pick 0 (omega arith) (call false)))
      (pick 0 (omega arith) (lock {g = guard} refl))

abbrev asleep : System sys
asleep = record {
  mem = lock_with (Contract.ready none false) 1;
  pc = update (update inside.pc 0 (testing frame)) 0 (sleeping frame);
}

asleep-Reach : Reach sys 2 2 asleep
unfolding arrive must_wait Mutex.deref_mut Raw.drop_guard
asleep-Reach =
    later
      (later inside-Reach (
        pick 0 (omega arith)
          (count {leads = false} {st = record { count = 1; generation_id = 0 }} refl refl)))
      (pick 0 (omega arith) (sleep refl refl))

refines_example : (a : Abstract.System) × Abstract.Reach 2 2 a × Like sys Contract.InPhase asleep a
refines_example =
    refines sys Contract.InPhase (fallback_mutex-SysMutexLaws false) (omega arith) (omega arith)
      asleep-Reach

calls_never_fail_example :
    (inside.pc 0 ≢ failed)
    × ((holds {sys = sys} (inside.pc 0) ≡ false) ⊎ Contract.InPhase inside.mem.inner (held 0))
    × ((holds {sys = sys} (inside.pc 0) ≡ false)
        ⊎ (holds {sys = sys} (inside.pc 1) ≡ false)
        ⊎ (alice.id ≡ bob.id))
    × (is_poisoned sys inside.mem ≡ false)
    × (inside.mem.cell.count < 2)
calls_never_fail_example =
    calls_never_fail (fallback_mutex-SysMutexLaws false) (omega arith) (omega arith) inside-Reach 0
      1

-- The wait ends by itself.
abbrev stirred : System sys
stirred = record { mem = asleep.mem; pc = update asleep.pc 0 (woken frame) }

stirred-Reach : Reach sys 2 2 stirred
stirred-Reach = later asleep-Reach (pick 0 (omega arith) spurious)

barrier_uses_condvar_example : ThroughCalls asleep
barrier_uses_condvar_example =
    barrier_uses_condvar sys Contract.InPhase (fallback_mutex-SysMutexLaws false) asleep-Reach

runs_are_short_example :
    (tally asleep-Reach).others + (tally asleep-Reach).returns
    ≤ (tally asleep-Reach).calls * 10 + 3 * (tally asleep-Reach).wakeups
runs_are_short_example = runs_are_short asleep-Reach

asleep_is_quiet : (i : ℕ) → is_awake (asleep.pc i) ≡ false
asleep_is_quiet i = ground arith

one_call : (tally asleep-Reach).calls ≡ 1
unfolding tally asleep-Reach inside-Reach start-Reach
one_call = refl

-- A barrier for no thread: the first call is about to notify, and then to return.
abbrev alone : System sys
alone = record {
  mem = record (lock_with (Contract.ready (some 0) false) 0) {
    cell = record { count = 0; generation_id = 1 };
  };
  pc =
      update (λ j. wake sys (update inside.pc 0 (notifying frame) j)) 0
        (leaving frame (record { value = true }));
}

alone-Reach : Reach sys 2 0 alone
unfolding arrive Mutex.deref_mut
alone-Reach =
    later
      (later inside-Reach (
        pick 0 (omega arith)
          (count {leads = true} {st = record { count = 0; generation_id = 1 }} refl refl)))
      (notify_all 0 (omega arith) refl)

small_barriers_never_wait_example :
    (alone.mem.cell.count ≡ 0) × ((i : ℕ) → follows (alone.pc i) ≡ false)
small_barriers_never_wait_example = small_barriers_never_wait (omega arith) alone-Reach

one_call_stirred : (tally stirred-Reach).calls ≡ 1
unfolding tally stirred-Reach asleep-Reach inside-Reach start-Reach
one_call_stirred = refl

calls_finish_example :
    (t : System sys) × (w : Continues 2 2 stirred t) × ((i : ℕ) → is_awake (t.pc i) ≡ false)
    × ((groups : ℕ) × ((tally (extend stirred-Reach w)).returns ≡ 2 * groups)
        × ((tally stirred-Reach).calls ≡ 2 * groups + total in_call 2 t.pc)
        × (total in_call 2 t.pc < 2))
calls_finish_example =
    calls_finish sys Contract.InPhase (fallback_mutex-SysMutexLaws false) (omega arith)
      (omega arith) stirred-Reach (omega (arith, one_call_stirred))

ended_runs_are_complete_example :
    (groups : ℕ) × ((tally asleep-Reach).returns ≡ 2 * groups)
    × ((tally asleep-Reach).calls ≡ 2 * groups + total in_call 2 asleep.pc)
    × (total in_call 2 asleep.pc < 2)
ended_runs_are_complete_example =
    ended_runs_are_complete sys Contract.InPhase (fallback_mutex-SysMutexLaws false) (omega arith)
      (omega arith) asleep-Reach (λ t st. quiet_from_outside asleep_is_quiet st)
      (omega (arith, one_call))
