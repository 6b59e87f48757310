-- ===== src/Tests/Condvars.antt =====
-- A condition variable on which each wait takes one tick and finds the value one higher, and the
-- deadlines of concrete durations (src/condvar.rs, src/sys/unix/condvar.rs).
use pinned_sync.Base.{ℕ, ◌+◌, ◌*◌, ◌<◌, ◌≤◌, ◌≡◌, refl, Bool, true, false, some, arith}
use Prim.Native.Nat.{min}
use pinned_sync.Effect.{Outcome, returned, panicked, pure}
use pinned_sync.Sys.Interface.{SysMutex, free}
use pinned_sync.Sys.Fallback.Mutex.Contract.{fallback_mutex-SysMutexLaws}
use pinned_sync.Sys.Fallback.Mutex as Raw
use pinned_sync.Sys.Fallback.Mutex.Contract as Contract
use pinned_sync.Mutex
use pinned_sync.Mutex.{MutexGuard, is_poisoned}
use pinned_sync.Condvar.{SysCondvar, wait_while, wait_timeout_while}
use pinned_sync.Condvar.Panics.{panicking_condition_poisons}
use pinned_sync.Sys.Unix.Condvar.Time.{Duration, Timespec, deadline, time_max, giga, timespec_max}
use pinned_sync.Sys.Unix.Condvar.Deadline.{nanos_of, deadline_is_sum}
use pinned_sync.Tests.Inits.{alice}

abbrev sys : SysMutex
sys = Raw.sys_mutex false

record World : Type 0 where
  mutex : Mutex.Mutex sys ℕ
  clock : ℕ

-- Alice has the mutex.
abbrev at : ℕ → World
at n = record {
  mutex = record {
    inner = Contract.ready (some 0) false;
    poison = record { failed = false };
    cell = n;
  };
  clock = n;
}

-- The mutex is hers whenever she is back from a wait.
abbrev tick : World → World
tick w = record { mutex = record w.mutex { cell = w.mutex.cell + 1 }; clock = w.clock + 1 }

abbrev cv : SysCondvar sys ℕ
cv = record {
  World = World;
  mutex_of = λ w. w.mutex;
  set_mutex = λ m w. record w { mutex = m };
  now = λ w. w.clock;
  notify_one = pure tt;
  notify_all = pure tt;
  wait = λ th g w. (returned g, tick w);
  wait_timeout = λ th g dur w. (returned (false, g), tick w);
}

abbrev guard : MutexGuard sys
guard = record { guard = record { panicking = false }; poison = record { panicking = false } }

-- A condition that adds 7 and panics.
abbrev bad : ℕ → Outcome Bool × ℕ
bad v = (panicked, v + 7)

panicking_condition_poisons_example :
    (w' : World) × (wait_while cv 1 alice bad guard (at 1) ≡ (panicked, w'))
    × (wait_timeout_while cv 1 alice guard 5 bad (at 1) ≡ (panicked, w'))
    × Contract.InPhase w'.mutex.inner free
    × (is_poisoned sys w'.mutex ≡ true)
    × (w'.mutex.cell ≡ 8)
panicking_condition_poisons_example =
    panicking_condition_poisons Contract.InPhase (fallback_mutex-SysMutexLaws false) cv
      (λ m w. refl) alice bad guard (at 1) 0 5 refl (false, refl) refl

abbrev half_second : Duration
half_second = record { secs = 3; nanos = 500_000_000 }

abbrev noon : Timespec
noon = record { tv_sec = 43_200; tv_nsec = 600_000_000 }

deadline_is_sum_example :
    (nanos_of (deadline half_second noon)
      ≡ min (nanos_of noon + min 3 time_max * giga + 500_000_000) (nanos_of timespec_max))
    × ((deadline half_second noon).tv_nsec < giga)
    × ((deadline half_second noon).tv_sec ≤ time_max)
deadline_is_sum_example = deadline_is_sum half_second noon (omega arith) (omega arith) (omega arith)
