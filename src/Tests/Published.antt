-- ===== src/Tests/Published.antt =====
-- Thread 0 initializes an `InitAssert`, thread 2 calls `init` again, and thread 1 uses the
-- reference, by loads that find the write before the last (src/sys_common/init_assert.rs).
use pinned_sync.Base.{ℕ, ◌≡◌, ◌≢◌, refl, Bool, true, false, none, some, arith, update}
use pinned_sync.SysCommon.InitAssert.{uninit_state, in_progress_state, init_state}
use pinned_sync.SysCommon.InitAssert.Threads.{idle, swapped, writing, storing, checked, reading}
use pinned_sync.SysCommon.InitAssert.Safety.{is_written}
use pinned_sync.SysCommon.InitAssert.Views.{
  Write, View, System, Reach, here, later, start, pick, swap, assert_pass, write, store, load,
  load_again,
}
use pinned_sync.SysCommon.InitAssert.Published.{written_before_read}

abbrev swapped_in : Bool → Write
swapped_in b = record { value = in_progress_state; releases = b }

abbrev view : ℕ → Bool → View
view n b = record { found = n; knows = b }

abbrev fresh : System ℕ
fresh = start

abbrev begun : System ℕ
begun = record {
  mem = record { writes = update fresh.mem.writes 1 (swapped_in false); last = 1; cell = none };
  view = update (update fresh.view 0 (view 1 false)) 0 (view 1 false);
  pc = update (update fresh.pc 0 (swapped uninit_state)) 0 writing;
}

begun-Reach : Reach begun
begun-Reach = later (later here (pick 0 swap)) (pick 0 (assert_pass refl))

abbrev published : System ℕ
published = record {
  mem = record {
    writes = update begun.mem.writes 2 (record { value = init_state; releases = true });
    last = 2;
    cell = some 7;
  };
  view = update (update begun.view 0 (view 1 true)) 0 (view 2 true);
  pc = update (update begun.pc 0 storing) 0 idle;
}

published-Reach : Reach published
published-Reach = later (later begun-Reach (pick 0 (write 7))) (pick 0 store)

abbrev used : System ℕ
used = record {
  mem = record {
    writes = update published.mem.writes 3 (swapped_in true);
    last = 3;
    cell = some 7;
  };
  view = update (update (update published.view 2 (view 3 true)) 1 (view 2 true)) 1 (view 2 true);
  pc = update (update (update published.pc 2 (swapped init_state)) 1 checked) 1 reading;
}

used-Reach : Reach used
used-Reach =
    later
      (later (later published-Reach (pick 2 swap))
        (pick 1 (load 2 (omega arith) (omega arith) refl)))
      (pick 1 (load_again 2 (omega arith) (omega arith) refl))

written_before_read_example :
    ((used.view 1).knows ≡ true) × (is_written used.mem.cell ≡ true) × (used.pc 2 ≢ writing)
written_before_read_example = written_before_read used-Reach 1 2 refl
