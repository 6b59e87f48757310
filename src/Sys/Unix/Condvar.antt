-- ===== src/Sys/Unix/Condvar.antt =====
-- src/sys/unix/condvar.rs: a pthread condition variable that checks that it was initialized.
pub mod Time
pub mod Deadline
use pinned_sync.Base.{
  ℕ, ◌+◌, ◌-◌, ◌*◌, ltb, Bool, true, false, not, ◌&&◌, ◌||◌, Option, none, some, ◌==◌,
  if◌then◌else◌,
}
use pinned_sync.Effect.{
  Outcome, returned, blocked, M, pure, panic, gets, modify, assert, debug_assert, on, on_unwind,
  with_local, ◌>>=◌, ◌>>◌,
}
use pinned_sync.Std.{Thread}
use pinned_sync.SysCommon.InitAssert
use pinned_sync.SysCommon.InitAssert.{InitAssert, begin_init, finish_init}
use pinned_sync.Sys.Unix.Libc.{PthreadCond, call, call_blocking}
use Time.{Duration, Timespec, giga, deadline, clamp_dur, system_deadline}

-- `debug` is `debug_assertions`, and `setclock` holds on the targets that have
-- `pthread_condattr_setclock`: all but macOS, iOS, L4Re, Android and Redox. `as_raw` and
-- `drop_guard` are those of the mutex guard that a wait is given.
module _ {W Guard : Type 0} (api : PthreadCond W) (debug setclock : Bool)
    (as_raw : Guard → M W (Unit {0})) (drop_guard : Thread → Guard → M W (Unit {0})) where
  open api use {
    Cond, Attr, initializer, clock_monotonic, etimedout, einval, condattr_init, condattr_setclock,
    condattr_destroy, cond_init, cond_signal, cond_broadcast, cond_destroy, cond_wait,
    cond_timedwait, clock_gettime, gettimeofday, instant,
  }

  -- `initialized` is there if one of `debug` and `setclock` holds, and is not used otherwise.
  pub record Condvar : Type 0 where
    pub inner : Cond
    pub initialized : InitAssert (Unit {0})

  abbrev on_initialized : {A : Type 0} → M (InitAssert (Unit {0})) A → M Condvar A
  on_initialized = on (λ c. c.initialized) (λ i c. record c { initialized = i })

  abbrev on_inner : {A : Type 0} → M Cond A → M Condvar A
  on_inner = on (λ c. c.inner) (λ i c. record c { inner = i })

  unfoldable pub uninit : Condvar
  uninit = record { inner = initializer; initialized = InitAssert.new }

  abbrev on_attr : {A : Type 0} → M (Option Attr) A → M (Option Attr × Cond) A
  on_attr = on (λ s. s.0) (λ a s. (a, s.1))

  -- The closure of `init` on systems with `pthread_condattr_setclock`.
  init_inner : M Cond (Unit {0})
  init_inner = with_local none do
    assert ((← on_attr (call condattr_init)) == 0)
    assert ((← on_attr (call (condattr_setclock clock_monotonic))) == 0)
    attr ← gets (λ s. s.0)
    assert ((← on (λ s. s.1) (λ c s. (s.0, c)) (call (cond_init attr))) == 0)
    assert ((← on_attr (call condattr_destroy)) == 0)

  unfoldable pub init : M Condvar (Unit {0})
  unfolding init_inner
  init =
      if setclock
      then (do
        on_initialized begin_init
        on_inner init_inner
        on_initialized (modify (λ i. record i { cell = some tt }))
        on_initialized finish_init)
      else if debug
      then (do
        on_initialized begin_init
        on_initialized (modify (λ i. record i { cell = some tt }))
        on_initialized finish_init)
      else pure tt

  -- The destructor; `dragonfly` is that target.
  unfoldable pub drop : (dragonfly : Bool) → M Condvar (Unit {0})
  drop dragonfly = do
    r ← on_inner (call cond_destroy)
    debug_assert debug (r == 0 || (dragonfly && r == einval))

  -- From here on the state has the rest of the world beside the object.
  abbrev on_condvar : {A : Type 0} → M Condvar A → M (Condvar × W) A
  on_condvar = on (λ s. s.0) (λ c s. (c, s.1))

  abbrev on_world : {A : Type 0} → M W A → M (Condvar × W) A
  on_world = on (λ s. s.1) (λ w s. (s.0, w))

  abbrev on_cond : {A : Type 0} → M (Cond × W) A → M (Condvar × W) A
  on_cond =
      on (λ s. (s.0.inner, s.1))
        (λ c s. (record { inner = c.0; initialized = s.0.initialized }, c.1))

  -- The macro `assert_init!`.
  assert_init : M (Condvar × W) (Unit {0})
  unfolding InitAssert.get
  assert_init = if debug || setclock then on_condvar (on_initialized InitAssert.get) else pure tt

  unfoldable pub notify_one : M (Condvar × W) (Unit {0})
  unfolding assert_init
  notify_one = do assert_init; r ← on_cond (call cond_signal); debug_assert debug (r == 0)

  unfoldable pub notify_all : M (Condvar × W) (Unit {0})
  unfolding assert_init
  notify_all = do assert_init; r ← on_cond (call cond_broadcast); debug_assert debug (r == 0)

  -- `wait` owns the guard, so a panic drops it, by a thread that is panicking then.
  abbrev unwinding : Thread → Thread
  unwinding th = record { id = th.id; panicking = true }

  unfoldable pub wait : Thread → Guard → M (Condvar × W) Guard
  unfolding assert_init
  wait th lock = on_unwind (on_world (drop_guard (unwinding th) lock)) do
    assert_init
    on_world (as_raw lock)
    r ← on_cond (call_blocking (cond_wait th.id))
    debug_assert debug (r == 0)
    pure lock

  -- On systems with a monotonic clock.
  unfoldable pub wait_timeout : Thread → Guard → Duration → M (Condvar × W) (Bool × Guard)
  unfolding assert_init deadline
  wait_timeout th lock dur = on_unwind (on_world (drop_guard (unwinding th) lock)) do
    assert_init
    now ← gets (λ s. clock_gettime s.1)
    assert (now.0 == 0)
    on_world (as_raw lock)
    r ← on_cond (call_blocking (cond_timedwait th.id (deadline dur now.1)))
    assert (r == etimedout || r == 0)
    pure (r == 0, lock)

  -- On macOS, iOS and Android, in system time. It makes no `assert_init!`.
  unfoldable pub wait_timeout_system : Thread → Guard → Duration → M (Condvar × W) (Bool × Guard)
  unfolding clamp_dur system_deadline
  wait_timeout_system th lock wanted = on_unwind (on_world (drop_guard (unwinding th) lock)) do
    let dur = clamp_dur wanted
    stable_now ← gets (λ s. instant s.1)
    sys_now ← gets (λ s. gettimeofday s.1)
    debug_assert debug (sys_now.0 == 0)
    on_world (as_raw lock)
    r ← on_cond (call_blocking (cond_timedwait th.id (system_deadline dur sys_now.1)))
    debug_assert debug (r == etimedout || r == 0)
    stable_then ← gets (λ s. instant s.1)
    pure (ltb (stable_then - stable_now) (dur.secs * giga + dur.nanos), lock)
