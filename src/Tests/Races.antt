-- ===== src/Tests/Races.antt =====
-- Two threads at a pthread read-write lock, step by step: one writes, the other starts `try_read`.
use pinned_sync.Base.{total, ◌⊎◌, ℕ, ◌≡◌, ◌≢◌, refl, Bool, true, false, some, arith, update}
use pinned_sync.SysCommon.InitAssert
use pinned_sync.SysCommon.InitAssert.{init_state}
use pinned_sync.Sys.Unix.RwLock.{
  RwLock, read_guard, write_guard, uninit, init, check_init, try_read, read, try_write, write,
  drop_read, drop_write,
}
use pinned_sync.Sys.Unix.RwLock.Threads.{
  outside, reading, read_held, writing, write_granted, readers_unknown, marking, write_held,
  refusing, failed, System, pick, Reach, made, later, enter_read, enter_write, wrlock_answers,
  test_write, test_readers, mark,
}
use pinned_sync.Sys.Unix.RwLock.Races.{uses_flag, no_flag_race, record_is_right}
use pinned_sync.Sys.Interface.{shared, exclusive}
use pinned_sync.Sys.Unix.RwLock.Access.{InAccess}
use pinned_sync.Sys.Unix.RwLock.Rest.{rests, is_read_guard, rests-InAccess}
use pinned_sync.Sys.Unix.RwLock.Going.{CanStep, calls_go_on}
use pinned_sync.Sys.Unix.RwLock.Runs.{Ran}
use pinned_sync.Sys.Unix.RwLock.TryRuns.{has_read, has_write}
use pinned_sync.Sys.Unix.RwLock.CallRuns.{calls_are_runs}
use pinned_sync.Tests.Inits.{alice}
use pinned_sync.Tests.Pthreads.{pthread_rw_lock, posix_rw_lock, grants_rightly}

abbrev who : ℕ → ℕ
who i = i

abbrev ready : RwLock pthread_rw_lock true
ready = record {
  lock = pthread_rw_lock.initializer;
  write_locked = false;
  num_readers = 0;
  initialized = record { state = init_state; cell = some tt };
}

abbrev start : System pthread_rw_lock true
start = record { mem = ready; pc = λ _. outside }

start-Reach : Reach pthread_rw_lock true who 2 start
unfolding init uninit InitAssert.new InitAssert.init
start-Reach = made refl

abbrev granted : RwLock pthread_rw_lock true
granted = record ready { lock = record { readers = 0; writer = some 0 } }

abbrev about_to_mark : System pthread_rw_lock true
about_to_mark = record {
  mem = granted;
  pc =
      update
        (update
          (update (update (update start.pc 1 (reading true)) 0 (writing false)) 0
            (write_granted false))
          0 (readers_unknown false))
        0 marking;
}

about_to_mark-Reach : Reach pthread_rw_lock true who 2 about_to_mark
unfolding check_init InitAssert.get
about_to_mark-Reach =
    later
      (later
        (later
          (later (later start-Reach (pick 1 (omega arith) (enter_read true refl)))
            (pick 0 (omega arith) (enter_write false refl)))
          (pick 0 (omega arith) (wrlock_answers refl)))
        (pick 0 (omega arith) test_write))
      (pick 0 (omega arith) test_readers)

no_flag_race_example : uses_flag (about_to_mark.pc 1) ≡ false
no_flag_race_example =
    no_flag_race pthread_rw_lock true posix_rw_lock grants_rightly (omega arith) about_to_mark-Reach
      0 1 (λ e. absurd (omega arith)) refl

abbrev marked_by_0 : System pthread_rw_lock true
marked_by_0 = record {
  mem = record granted { write_locked = true };
  pc = update about_to_mark.pc 0 write_held;
}

marked_by_0-Reach : Reach pthread_rw_lock true who 2 marked_by_0
marked_by_0-Reach = later about_to_mark-Reach (pick 0 (omega arith) mark)

record_is_right_example :
    (marked_by_0.pc 0 ≢ failed)
    × ((tries : Bool) → marked_by_0.pc 0 ≢ refusing tries)
    × (marked_by_0.pc 0 ≡ write_held
        → (marked_by_0.mem.write_locked ≡ true)
          × (marked_by_0.mem.num_readers ≡ 0)
          × ((j : ℕ) → 0 ≢ j → (marked_by_0.pc j ≢ write_held) × (marked_by_0.pc j ≢ read_held)))
    × (marked_by_0.pc 0 ≡ read_held
        → (marked_by_0.mem.write_locked ≡ false) × (marked_by_0.mem.num_readers ≢ 0))
record_is_right_example =
    record_is_right pthread_rw_lock true posix_rw_lock grants_rightly (omega arith)
      marked_by_0-Reach 0

calls_are_runs_example :
    Ran pthread_rw_lock true alice.id ready outside
      (λ _. read_held)
      (reading false)
      (read pthread_rw_lock true alice ready)
    × Ran pthread_rw_lock true alice.id ready outside has_read
        (reading true)
        (try_read pthread_rw_lock true alice ready)
    × Ran pthread_rw_lock true alice.id ready outside
        (λ _. write_held)
        (writing false)
        (write pthread_rw_lock true alice ready)
    × Ran pthread_rw_lock true alice.id ready outside has_write
        (writing true)
        (try_write pthread_rw_lock true alice ready)
    × Ran pthread_rw_lock true alice.id ready read_held
        (λ _. outside)
        outside
        (drop_read pthread_rw_lock true alice read_guard ready)
    × Ran pthread_rw_lock true alice.id ready write_held
        (λ _. outside)
        outside
        (drop_write pthread_rw_lock true alice write_guard ready)
calls_are_runs_example = calls_are_runs pthread_rw_lock true alice ready (λ e. absurd (omega arith))

-- Thread 0 has the write guard, and no call is under way.
abbrev at_rest : System pthread_rw_lock true
at_rest = record {
  mem = marked_by_0.mem;
  pc =
      update
        (update
          (update (update (update start.pc 0 (writing false)) 0 (write_granted false)) 0
            (readers_unknown false))
          0 marking)
        0 write_held;
}

at_rest-Reach : Reach pthread_rw_lock true who 2 at_rest
unfolding check_init InitAssert.get
at_rest-Reach =
    later
      (later
        (later
          (later (later start-Reach (pick 0 (omega arith) (enter_write false refl)))
            (pick 0 (omega arith) (wrlock_answers refl)))
          (pick 0 (omega arith) test_write))
        (pick 0 (omega arith) test_readers))
      (pick 0 (omega arith) mark)

at_rest_is_quiet : (i : ℕ) → rests (at_rest.pc i) ≡ true
at_rest_is_quiet i = ground arith

rests-InAccess_example :
    InAccess pthread_rw_lock true posix_rw_lock at_rest.mem
      (shared (total is_read_guard 2 at_rest.pc))
    ⊎ ((i : ℕ) × (at_rest.pc i ≡ write_held)
        × InAccess pthread_rw_lock true posix_rw_lock at_rest.mem (exclusive (who i)))
rests-InAccess_example =
    rests-InAccess pthread_rw_lock true posix_rw_lock grants_rightly (omega arith) at_rest-Reach
      at_rest_is_quiet

about_to_mark_unguarded :
    (i : ℕ) → (about_to_mark.pc i ≢ read_held) × (about_to_mark.pc i ≢ write_held)
about_to_mark_unguarded i = (ground arith, ground arith)

calls_go_on_example : CanStep pthread_rw_lock true who 2 about_to_mark
calls_go_on_example =
    calls_go_on pthread_rw_lock true posix_rw_lock grants_rightly (omega arith) about_to_mark-Reach
      about_to_mark_unguarded 0 refl
