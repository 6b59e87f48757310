-- ===== src/SysCommon/InitAssert/Views.antt =====
-- `init_with` and `get_ref` called by any number of threads on one `InitAssert`, with the acquire
-- and release accesses that the source names (src/sys_common/init_assert.rs). The writes of `state`
-- stand in one order. A load may find any write but those before one that its thread has found;
-- `swap` finds the last, and its own comes right after, so that no later write goes between. A load
-- takes over what was known at a release store that it finds, also through swaps in between.
use pinned_sync.Base.{
  ℕ, suc, ◌≤◌, ◌≡◌, Bool, true, false, ◌||◌, Option, none, some, ℤ, ◌==ℤ◌, update,
}
use pinned_sync.SysCommon.InitAssert.{uninit_state, in_progress_state, init_state}
use pinned_sync.SysCommon.InitAssert.Threads.{
  Pc, idle, swapped, writing, storing, checked, reading, panicked,
}

-- A write of `state`. `releases` tells that the write of the cell happens before a load that finds
-- it.
pub record Write : Type 0 where
  pub value : ℤ
  pub releases : Bool

-- What a thread knows: the last write of `state` that it found, and whether the write of the cell
-- happens before its next step.
pub record View : Type 0 where
  pub found : ℕ
  pub knows : Bool

pub record Memory (T : Type 0) : Type 0 where
  pub writes : ℕ → Write
  pub last : ℕ
  pub cell : Option T

module _ {T : Type 0} where
  abbrev push : Memory T → Write → Memory T
  push m w = record m { writes = update m.writes (suc m.last) w; last = suc m.last }

  -- A load with `Acquire` finds write number `at`.
  abbrev acquire : Memory T → View → ℕ → View
  acquire m v at = record { found = at; knows = v.knows || (m.writes at).releases }

  -- The steps of one thread.
  pub data Move (m : Memory T) (v : View) : Pc → Memory T → View → Pc → Type 0 where
    swap :
        Move m v idle
          (push m (record { value = in_progress_state; releases = (m.writes m.last).releases }))
          (record { found = suc m.last; knows = v.knows || (m.writes m.last).releases })
          (swapped (m.writes m.last).value)
    assert_pass : {old : ℤ} → (old ==ℤ uninit_state) ≡ true → Move m v (swapped old) m v writing
    assert_fail : {old : ℤ} → (old ==ℤ uninit_state) ≡ false → Move m v (swapped old) m v panicked
    write :
        (value : T)
        → Move m v writing (record m { cell = some value }) (record v { knows = true }) storing
    closure_panics : Move m v writing m v panicked
    store :
        Move m v storing
          (push m (record { value = init_state; releases = v.knows }))
          (record v { found = suc m.last })
          idle
    load :
        (at : ℕ)
        → v.found ≤ at
        → at ≤ m.last
        → ((m.writes at).value ==ℤ init_state) ≡ true
        → Move m v idle m (acquire m v at) checked
    load_fails :
        (at : ℕ)
        → v.found ≤ at
        → at ≤ m.last
        → ((m.writes at).value ==ℤ init_state) ≡ false
        → Move m v idle m (acquire m v at) panicked
    load_again :
        (at : ℕ)
        → v.found ≤ at
        → at ≤ m.last
        → ((m.writes at).value ==ℤ init_state) ≡ true
        → Move m v checked m (acquire m v at) reading
    load_again_fails :
        (at : ℕ)
        → v.found ≤ at
        → at ≤ m.last
        → ((m.writes at).value ==ℤ init_state) ≡ false
        → Move m v checked m (acquire m v at) panicked
    read : Move m v reading m v idle

pub record System (T : Type 0) : Type 0 where
  pub mem : Memory T
  pub view : ℕ → View
  pub pc : ℕ → Pc

pub data Step {T : Type 0} (s : System T) : System T → Type 0 where
  pick :
      (i : ℕ) {m : Memory T} {v : View} {p : Pc}
      → Move s.mem (s.view i) (s.pc i) m v p
      → Step s (record { mem = m; view = update s.view i v; pc = update s.pc i p })

-- Every thread has found the first write, which `new` makes.
abbrev pub start : {T : Type 0} → System T
start = record {
  mem = record {
    writes = λ _. record { value = uninit_state; releases = false };
    last = 0;
    cell = none;
  };
  view = λ _. record { found = 0; knows = false };
  pc = λ _. idle;
}

pub data Reach {T : Type 0} : System T → Type 0 where
  here : Reach start
  later : {s t : System T} → Reach s → Step s t → Reach t
