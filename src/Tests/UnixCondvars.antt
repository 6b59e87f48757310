-- ===== src/Tests/UnixCondvars.antt =====
-- Condvars over pthreads in a release build: one that was not initialized, and one that is waited
-- on for seven nanoseconds (src/condvar.rs, src/sys/unix/condvar.rs).
use pinned_sync.Base.{
  ℕ, ◌+◌, ◌/◌, ◌%◌, ◌≡◌, ◌==◌, refl, Bool, true, false, none, some, if◌then◌else◌,
}
use Prim.Native.Nat.{max}
use pinned_sync.Effect.{Outcome, returned, panicked}
use pinned_sync.SysCommon.InitAssert.{init_state}
use pinned_sync.Sys.Interface.{SysMutex}
use pinned_sync.Sys.Unix.Mutex as Pthread
use pinned_sync.Sys.Unix.Mutex.Contract as UnixContract
use pinned_sync.Sys.Unix.Libc.{PthreadCond}
use pinned_sync.Sys.Unix.Condvar.Time.{giga}
use pinned_sync.Sys.Unix.Condvar.Deadline.{nanos_of}
use pinned_sync.Mutex.{MutexGuard}
use pinned_sync.Condvar as Condvar
use pinned_sync.Condvar.{SysCondvar}
use pinned_sync.Condvar.Timing.{Timed}
use pinned_sync.Condvar.OverUnix as OverUnix
use pinned_sync.Condvar.OverUnix.{PanicsUnpoisoned, uninit_calls_panic}
use pinned_sync.Tests.Inits.{alice}
use pinned_sync.Tests.Pthreads.{pthread_mutex, posix_mutex}

abbrev unix : SysMutex
unix = Pthread.sys_mutex pthread_mutex false

abbrev UnixRest : Type 0
UnixRest = OverUnix.Rest pthread_mutex false ℕ

-- After `cond_init` the first timed wait is woken at once, and every other ends one nanosecond after
-- its deadline.
abbrev pthread_cond : PthreadCond UnixRest
pthread_cond = record {
  Cond = ℕ;
  Attr = ℕ;
  Clock = ℕ;
  initializer = 0;
  clock_monotonic = 1;
  etimedout = 110;
  einval = 22;
  condattr_init = λ a. (0, some 0);
  condattr_setclock = λ c a. (0, some c);
  condattr_destroy = λ a. (0, none);
  cond_init = λ a c. (0, 1);
  cond_signal = λ s. (0, s);
  cond_broadcast = λ s. (0, s);
  cond_destroy = λ c. (0, c);
  cond_wait = λ t s. some (0, s);
  cond_timedwait = λ t d s. some (
      if s.0 == 1
      then (0, (0, s.1))
      else (110, (s.0, record s.1 { clock = max s.1.clock (nanos_of d) + 1 })));
  clock_gettime = λ w. (0, record { tv_sec = w.clock / giga; tv_nsec = w.clock % giga });
  gettimeofday = λ w. (0, record { tv_sec = 0; tv_usec = 0 });
  instant = λ w. 0;
}

abbrev unix_guard : MutexGuard unix
unix_guard = record { guard = Pthread.mutex_guard; poison = record { panicking = false } }

abbrev unix_rest : UnixRest
unix_rest = record {
  mutex = record {
    inner = UnixContract.ready pthread_mutex false posix_mutex (some 0);
    poison = record { failed = false };
    cell = 5;
  };
  clock = 0;
}

abbrev unix_world : OverUnix.World pthread_mutex false ℕ pthread_cond
unix_world = (OverUnix.fresh pthread_mutex false ℕ pthread_cond, unix_rest)

abbrev unix_condvar : SysCondvar unix ℕ
unix_condvar = OverUnix.sys_condvar pthread_mutex false ℕ pthread_cond

uninit_calls_panic_example :
    (Condvar.notify_one unix_condvar unix_world ≡ (panicked, unix_world))
    × (Condvar.notify_all unix_condvar unix_world ≡ (panicked, unix_world))
    × PanicsUnpoisoned pthread_mutex false ℕ pthread_cond posix_mutex
        (Condvar.wait unix_condvar alice unix_guard)
        unix_world
    × PanicsUnpoisoned pthread_mutex false ℕ pthread_cond posix_mutex
        (Condvar.wait_timeout unix_condvar alice unix_guard 7)
        unix_world
uninit_calls_panic_example =
    uninit_calls_panic pthread_mutex false ℕ pthread_cond posix_mutex alice unix_guard 7 unix_rest
      (some 0, refl, refl)

-- The same condition variable after `init`, which `wait_timeout_while` waits on for 7 nanoseconds.
abbrev ready_world : OverUnix.World pthread_mutex false ℕ pthread_cond
ready_world =
    (record { inner = 1; initialized = record { state = init_state; cell = some tt } }, unix_rest)

abbrev still : ℕ → ℕ
still c = if c == 1 then 1 else 0

abbrev never : ℕ → Outcome Bool × ℕ
never v = (returned true, v)
