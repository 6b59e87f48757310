-- ===== src/SysCommon/Poison/Relaxed.antt =====
-- The flag with its relaxed accesses, behind a lock that any number of threads take for reading or
-- for writing (src/sys_common/poison.rs, as src/mutex.rs and src/rwlock.rs use it; a mutex is only
-- written). The writes of `failed` stand in one order, and a load finds any of them but those
-- before one that its thread knows. A thread that takes the lock comes to know what was known at
-- each release of it.
use pinned_sync.Base.{ℕ, suc, ◌≤◌, ◌≡◌, Bool, true, false, not, ◌&&◌, ltb, if◌then◌else◌, update}
use pinned_sync.Std.{LockResult, Thread, inner_of}
use pinned_sync.SysCommon.Poison.{Flag, Guard, new, borrow}

pub data Pc : Type 0 where
  outside : Pc
  locked : (writes : Bool) → Pc  -- has the lock, before `borrow`
  held : (writes : Bool) (result : LockResult Guard) → Pc  -- after `borrow`
  leaving : (writes : Bool) → Pc  -- after `done`, before the lock is given back

-- It has the lock, and it has it to itself.
abbrev pub is_inside : Pc → Bool
is_inside outside = false
is_inside _ = true

abbrev pub has_alone : Pc → Bool
has_alone outside = false
has_alone (locked w) = w
has_alone (held w _) = w
has_alone (leaving w) = w

-- `known` has for each thread the last write that it knows, `released` the last known at a release;
-- `panicked` tells whether a section for writing was left by a panic that began in it.
pub record System : Type 0 where
  pub writes : ℕ → Flag
  pub last : ℕ
  pub known : ℕ → ℕ
  pub released : ℕ
  pub panicked : Bool
  pub pc : ℕ → Pc

abbrev later_of : ℕ → ℕ → ℕ
later_of a b = if ltb a b then b else a

abbrev thread : ℕ → Bool → Thread
thread i p = record { id = i; panicking = p }

abbrev pub began_in : LockResult Guard → (panicking : Bool) → Bool
began_in r p = not (inner_of r).panicking && p

pub data Step (s : System) : System → Type 0 where
  lock_shared :
      (i : ℕ)
      → s.pc i ≡ outside
      → ((j : ℕ) → has_alone (s.pc j) ≡ false)
      → Step s (record s {
        known = update s.known i (later_of (s.known i) s.released);
        pc = update s.pc i (locked false);
      })
  lock_alone :
      (i : ℕ)
      → s.pc i ≡ outside
      → ((j : ℕ) → is_inside (s.pc j) ≡ false)
      → Step s (record s {
        known = update s.known i (later_of (s.known i) s.released);
        pc = update s.pc i (locked true);
      })
  -- `borrow` in a thread that is panicking or not, where `get` finds write number `at`.
  borrowed :
      (i : ℕ) {w : Bool} (p : Bool) (at : ℕ)
      → s.pc i ≡ locked w
      → s.known i ≤ at
      → at ≤ s.last
      → Step s (record s {
        known = update s.known i at;
        pc = update s.pc i (held w (borrow (thread i p) (s.writes at)));
      })
  -- `is_poisoned`, by a thread with the lock or without.
  looked :
      (i at : ℕ) → s.known i ≤ at → at ≤ s.last → Step s (record s { known = update s.known i at })
  -- `done`, which the destructor of a guard for reading does not call.
  done_stores :
      (i : ℕ) {r : LockResult Guard} (p : Bool)
      → s.pc i ≡ held true r
      → began_in r p ≡ true
      → Step s (record {
        writes = update s.writes (suc s.last) (record { failed = true });
        last = suc s.last;
        known = update s.known i (suc s.last);
        released = s.released;
        panicked = true;
        pc = update s.pc i (leaving true);
      })
  done_passes :
      (i : ℕ) {r : LockResult Guard} (p : Bool)
      → s.pc i ≡ held true r
      → began_in r p ≡ false
      → Step s (record s { pc = update s.pc i (leaving true) })
  read_dropped :
      (i : ℕ) {r : LockResult Guard}
      → s.pc i ≡ held false r
      → Step s (record s { pc = update s.pc i (leaving false) })
  unlock :
      (i : ℕ) {w : Bool}
      → s.pc i ≡ leaving w
      → Step s (record s { released = later_of s.released (s.known i); pc = update s.pc i outside })

abbrev pub start : System
start = record {
  writes = λ _. new;
  last = 0;
  known = λ _. 0;
  released = 0;
  panicked = false;
  pc = λ _. outside;
}

pub data Reach : System → Type 0 where
  here : Reach start
  later : {s t : System} → Reach s → Step s t → Reach t
