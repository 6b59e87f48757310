-- ===== src/SysCommon/InitAssert/Threads.antt =====
-- `init_with` and `get_ref` called by any number of threads on one `InitAssert`: each access of
-- the atomic `state` and each access of the cell is one step (src/sys_common/init_assert.rs).
use pinned_sync.Base.{ℕ, ◌≡◌, none, some, ℤ, ◌==ℤ◌, true, false, update}
use pinned_sync.SysCommon.InitAssert.{uninit_state, in_progress_state, init_state, InitAssert}

-- Where a thread stands.
pub data Pc : Type 0 where
  idle : Pc
  swapped : (old : ℤ) → Pc  -- in `init_with`, before the assertion
  writing : Pc  -- before the closure writes the cell
  storing : Pc  -- before `state` is set to `INIT`
  checked : Pc  -- in `get_ref`, after its own load
  reading : Pc  -- after the load in `get`, before the reference is used
  panicked : Pc

module _ {T : Type 0} where
  -- The steps of one thread.
  pub data Move (m : InitAssert T) : Pc → InitAssert T → Pc → Type 0 where
    swap : Move m idle (record m { state = in_progress_state }) (swapped m.state)
    assert_pass : {old : ℤ} → (old ==ℤ uninit_state) ≡ true → Move m (swapped old) m writing
    assert_fail : {old : ℤ} → (old ==ℤ uninit_state) ≡ false → Move m (swapped old) m panicked
    write : (v : T) → Move m writing (record m { cell = some v }) storing
    closure_panics : Move m writing m panicked
    store : Move m storing (record m { state = init_state }) idle
    load : (m.state ==ℤ init_state) ≡ true → Move m idle m checked
    load_again : (m.state ==ℤ init_state) ≡ true → Move m checked m reading
    load_fails : (m.state ==ℤ init_state) ≡ false → Move m idle m panicked
    load_again_fails : (m.state ==ℤ init_state) ≡ false → Move m checked m panicked
    read : Move m reading m idle

pub record System (T : Type 0) : Type 0 where
  pub mem : InitAssert T
  pub pc : ℕ → Pc

pub data Step {T : Type 0} (s : System T) : System T → Type 0 where
  pick :
      (i : ℕ) {m : InitAssert T} {p : Pc}
      → Move s.mem (s.pc i) m p
      → Step s (record { mem = m; pc = update s.pc i p })

abbrev pub start : {T : Type 0} → System T
start = record { mem = record { state = uninit_state; cell = none }; pc = λ _. idle }

pub data Reach {T : Type 0} : System T → Type 0 where
  here : Reach start
  later : {s t : System T} → Reach s → Step s t → Reach t
