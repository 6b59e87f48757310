-- ===== src/Barrier/Threads.antt =====
-- Threads that call `Barrier::wait` on one barrier (src/barrier.rs). A thread takes the lock, waits
-- on the condition variable and gives the lock up in single steps; what it does to the counters
-- while it holds the lock is one step, since nobody else sees them then.
use pinned_sync.Base.{ℕ, ◌+◌, ◌<◌, ◌≡◌, Bool, true, false, Option, none, some, update}
use pinned_sync.Std.{ok, err, PoisonError, Thread}
use pinned_sync.SysCommon.Poison
use pinned_sync.Barrier.{
  BarrierState, uninit_state, arrive, must_wait, BarrierWaitResult, is_leader,
}

-- The local variables of one call: whether the thread is panicking, its poison guard, `local_gen`,
-- and how many generations had ended when it arrived, which the program does not keep.
pub record Frame : Type 0 where
  pub panicking : Bool
  pub guard : Poison.Guard
  pub local_gen : ℕ
  pub epoch : ℕ

pub data Pc : Type 0 where
  outside : Pc
  entering : (panicking : Bool) → Pc  -- in `lock()`
  locked : (panicking : Bool) (guard : Poison.Guard) → Pc  -- has the lock, has not counted itself
  testing : Frame → Pc  -- has the lock, at the head of the `while`
  sleeping : Frame → Pc  -- in `cvar.wait`, without the lock
  woken : Frame → Pc  -- in `cvar.wait`, asking for the lock again
  notifying : Frame → Pc  -- the leader, has the lock, before `notify_all`
  leaving : Frame → BarrierWaitResult → Pc  -- has the lock and the result
  failed : Pc  -- `unwrap` has panicked

-- The lock, the flag and the counters; and, for the statements, how many calls have arrived and
-- have returned, how many returned `true`, and how many generations have ended.
pub record Shared : Type 0 where
  pub owner : Option ℕ
  pub poison : Poison.Flag
  pub state : BarrierState
  pub arrived : ℕ
  pub returned : ℕ
  pub led : ℕ
  pub epoch : ℕ

abbrev pub thread : ℕ → Bool → Thread
thread i p = record { id = i; panicking = p }

abbrev pub bump_if : Bool → ℕ → ℕ
bump_if true n = n + 1
bump_if false n = n

-- After the counters are written: the leader goes on to `notify_all`, others to the `while`.
abbrev pub counted : Bool → Frame → Pc
counted true f = notifying f
counted false f = testing f

-- The steps of thread `i` that change no other thread.
pub data Move (num_threads i : ℕ) (m : Shared) : Pc → Shared → Pc → Type 0 where
  call : (p : Bool) → Move num_threads i m outside m (entering p)
  lock :
      {p : Bool} {g : Poison.Guard}
      → m.owner ≡ none
      → Poison.borrow (thread i p) m.poison ≡ ok g
      → Move num_threads i m (entering p) (record m { owner = some i }) (locked p g)
  -- The guard in the error is dropped in unwinding.
  lock_poisoned :
      {p : Bool} {e : PoisonError Poison.Guard}
      → m.owner ≡ none
      → Poison.borrow (thread i p) m.poison ≡ err e
      → Move num_threads i m
          (entering p)
          (record m { poison = Poison.done (thread i true) e.guard m.poison })
          failed
  count :
      {p : Bool} {g : Poison.Guard} {leads : Bool} {st : BarrierState}
      → arrive num_threads m.state ≡ (leads, st)
      → Move num_threads i m
          (locked p g)
          (record m { state = st; arrived = m.arrived + 1; epoch = bump_if leads m.epoch })
          (counted leads (record {
            panicking = p;
            guard = g;
            local_gen = m.state.generation_id;
            epoch = m.epoch;
          }))
  sleep :
      {f : Frame}
      → must_wait num_threads f.local_gen m.state ≡ true
      → Move num_threads i m (testing f) (record m { owner = none }) (sleeping f)
  spurious : {f : Frame} → Move num_threads i m (sleeping f) m (woken f)
  relock :
      {f : Frame}
      → m.owner ≡ none
      → Poison.get m.poison ≡ false
      → Move num_threads i m (woken f) (record m { owner = some i }) (testing f)
  relock_poisoned :
      {f : Frame}
      → m.owner ≡ none
      → Poison.get m.poison ≡ true
      → Move num_threads i m
          (woken f)
          (record m { poison = Poison.done (thread i true) f.guard m.poison })
          failed
  pass :
      {f : Frame}
      → must_wait num_threads f.local_gen m.state ≡ false
      → Move num_threads i m (testing f) m (leaving f (record { value = false }))
  leave :
      {f : Frame} {r : BarrierWaitResult}
      → Move num_threads i m
          (leaving f r)
          (record m {
            owner = none;
            poison = Poison.done (thread i f.panicking) f.guard m.poison;
            returned = m.returned + 1;
            led = bump_if (is_leader r) m.led;
          })
          outside

pub record System : Type 0 where
  pub mem : Shared
  pub pc : ℕ → Pc

-- `notify_all` wakes every thread that sleeps on the condition variable.
abbrev pub wake : Pc → Pc
wake outside = outside
wake (entering p) = entering p
wake (locked p g) = locked p g
wake (testing f) = testing f
wake (sleeping f) = woken f
wake (woken f) = woken f
wake (notifying f) = notifying f
wake (leaving f r) = leaving f r
wake failed = failed

pub data Step (threads num_threads : ℕ) (s : System) : System → Type 0 where
  pick :
      (i : ℕ) {m : Shared} {p : Pc}
      → i < threads
      → Move num_threads i s.mem (s.pc i) m p
      → Step threads num_threads s (record { mem = m; pc = update s.pc i p })
  notify_all :
      (i : ℕ) {f : Frame}
      → i < threads
      → s.pc i ≡ notifying f
      → Step threads num_threads s (record {
        mem = s.mem;
        pc = update (λ j. wake (s.pc j)) i (leaving f (record { value = true }));
      })

abbrev pub start : System
start = record {
  mem = record {
    owner = none;
    poison = Poison.new;
    state = uninit_state;
    arrived = 0;
    returned = 0;
    led = 0;
    epoch = 0;
  };
  pc = λ _. outside;
}

pub data Reach (threads num_threads : ℕ) : System → Type 0 where
  here : Reach threads num_threads start
  later :
      {s t : System}
      → Reach threads num_threads s
      → Step threads num_threads s t
      → Reach threads num_threads t
