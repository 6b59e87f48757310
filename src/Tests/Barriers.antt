-- ===== src/Tests/Barriers.antt =====
-- Two threads that meet at a barrier for two (src/barrier.rs).
use pinned_sync.Base.{ℕ, ◌+◌, ◌*◌, ◌≤◌, ◌<◌, ◌≡◌, refl, true, false, none, some, update, arith}
use pinned_sync.SysCommon.Poison
use pinned_sync.Barrier.{uninit_state, arrive, must_wait, is_leader}
use pinned_sync.Barrier.Threads.{
  Frame, outside, entering, locked, testing, sleeping, notifying, leaving, Shared, System, Reach,
  here, later, pick, notify_all, call, lock, count, sleep, relock, pass, leave, start, wake,
}
use pinned_sync.Barrier.Invariant.{inside}
use pinned_sync.Barrier.Safety.{HasEnded, no_early_return, one_leader_each}

-- Both calls begin in generation 0 with a clean guard.
abbrev frame : Frame
frame = record { panicking = false; guard = record { panicking = false }; local_gen = 0; epoch = 0 }

abbrev with_count : ℕ → (arrived : ℕ) → Shared
with_count c a = record start.mem { state = record { count = c; generation_id = 0 }; arrived = a }

-- Thread 0 has counted itself and sleeps.
abbrev one_asleep : System
one_asleep = record {
  mem = with_count 1 1;
  pc =
      update
        (update (update (update start.pc 0 (entering false)) 0 (locked false frame.guard)) 0
          (testing frame))
        0 (sleeping frame);
}

one_asleep-Reach : Reach 2 2 one_asleep
unfolding arrive must_wait uninit_state Poison.new Poison.borrow Poison.get
one_asleep-Reach =
    later
      (later
        (later (later here (pick 0 (omega arith) (call false)))
          (pick 0 (omega arith) (lock {g = frame.guard} refl refl)))
        (pick 0 (omega arith)
          (count {leads = false} {st = record { count = 1; generation_id = 0 }} refl)))
      (pick 0 (omega arith) (sleep refl))

-- Thread 1 calls as well.
abbrev one_enters : System
one_enters = record { mem = one_asleep.mem; pc = update one_asleep.pc 1 (entering false) }

one_enters-Reach : Reach 2 2 one_enters
one_enters-Reach = later one_asleep-Reach (pick 1 (omega arith) (call false))

-- It is the last, and leads; it has told thread 0.
abbrev ended : Shared
ended = record one_asleep.mem {
  state = record { count = 0; generation_id = 1 };
  arrived = 2;
  epoch = 1;
}

abbrev told : System
told = record {
  mem = record ended { owner = some 1 };
  pc =
      update
        (λ j.
          wake (update (update one_enters.pc 1 (locked false frame.guard)) 1 (notifying frame) j))
        1 (leaving frame (record { value = true }));
}

told-Reach : Reach 2 2 told
unfolding arrive uninit_state Poison.new Poison.borrow Poison.get
told-Reach =
    later
      (later (later one_enters-Reach (pick 1 (omega arith) (lock {g = frame.guard} refl refl))) (
        pick 1 (omega arith)
          (count {leads = true} {st = record { count = 0; generation_id = 1 }} refl)))
      (notify_all 1 (omega arith) refl)

-- Thread 1 has returned, and thread 0 is about to.
abbrev last_leaves : System
last_leaves = record {
  mem = record ended { owner = some 0; returned = 1; led = 1 };
  pc =
      update (update (update told.pc 1 outside) 0 (testing frame)) 0
        (leaving frame (record { value = false }));
}

last_leaves-Reach : Reach 2 2 last_leaves
unfolding must_wait uninit_state Poison.new Poison.get Poison.done is_leader
last_leaves-Reach =
    later
      (later (later told-Reach (pick 1 (omega arith) leave))
        (pick 0 (omega arith) (relock refl refl)))
      (pick 0 (omega arith) (pass refl))

no_early_return_example :
    (last_leaves.mem.returned ≤ 2 * last_leaves.mem.epoch)
    × (last_leaves.mem.arrived ≡ 2 * last_leaves.mem.epoch + last_leaves.mem.state.count)
    × (last_leaves.mem.state.count < 2)
    × HasEnded last_leaves.mem.epoch (last_leaves.pc 0)
no_early_return_example = no_early_return (omega arith) (omega arith) last_leaves-Reach 0

abbrev all_left : System
all_left = record {
  mem = record ended { owner = none; returned = 2; led = 1 };
  pc = update last_leaves.pc 0 outside;
}

all_left-Reach : Reach 2 2 all_left
unfolding uninit_state Poison.new Poison.done is_leader
all_left-Reach = later last_leaves-Reach (pick 0 (omega arith) leave)

all_quiet : (i : ℕ) → inside (all_left.pc i) ≡ 0
all_quiet i = ground arith

one_leader_each_example :
    (all_left.mem.returned ≡ 2 * all_left.mem.led) × (all_left.mem.arrived ≡ all_left.mem.returned)
one_leader_each_example = one_leader_each (omega arith) (omega arith) all_left-Reach all_quiet
