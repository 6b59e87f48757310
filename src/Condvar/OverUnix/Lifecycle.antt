-- ===== src/Condvar/OverUnix/Lifecycle.antt =====
-- A `Condvar` over pthreads with a monotonic clock, after `init` and after a second one
-- (src/condvar.rs, src/sys/unix/condvar.rs).
use pinned_sync.Base.{ℤ, ◌≡◌, refl, Bool, none, some, arith}
use pinned_sync.Effect.{returned, panicked}
use pinned_sync.SysCommon.InitAssert
use pinned_sync.SysCommon.InitAssert.{init_state, in_progress_state}
use pinned_sync.Sys.Interface.{SysCond}
use pinned_sync.Sys.Unix.Libc.{PthreadMutex, PthreadCond}
use pinned_sync.Sys.Unix.Condvar as RawCondvar
use pinned_sync.Condvar.{SysCondvar, notify_one, notify_all}
use pinned_sync.Condvar.Make.{Condvar, uninit, init}
use pinned_sync.Condvar.OverUnix.{sys, Rest, sys_condvar, sys_cond}

-- The attributes can be made, set and destroyed, a condition variable can be made with them, and
-- signals and broadcasts succeed, without an effect on the mutex and the clock.
module _ {W : Type 0} (api : PthreadCond W) where
  open api use {
    Cond, Attr, clock_monotonic, condattr_init, condattr_setclock, condattr_destroy, cond_init,
    cond_signal, cond_broadcast,
  }

  pub record PosixCond : Type 0 where
    pub fresh_attr : Attr
    pub monotonic_attr : Attr
    pub monotonic : Cond → Cond
    pub attr_init : condattr_init none ≡ (0, some fresh_attr)
    pub attr_setclock :
        condattr_setclock clock_monotonic (some fresh_attr) ≡ (0, some monotonic_attr)
    pub attr_destroy : (a : Attr) → condattr_destroy (some a) ≡ (0, none)
    pub init_monotonic : (c : Cond) → cond_init (some monotonic_attr) c ≡ (0, monotonic c)
    pub signal : (c : Cond) (w : W) → (c' : Cond) × (cond_signal (c, w) ≡ (0, (c', w)))
    pub broadcast : (c : Cond) (w : W) → (c' : Cond) × (cond_broadcast (c, w) ≡ (0, (c', w)))

module _ (mutex_api : PthreadMutex) (debug : Bool) (T : Type 0)
    (api : PthreadCond (Rest mutex_api debug T)) (posix : PosixCond api) where
  abbrev cv : SysCondvar (sys mutex_api debug T) T
  cv = sys_condvar mutex_api debug T api

  abbrev cond : SysCond
  cond = sys_cond mutex_api debug T api

  -- Made with the monotonic clock, and in a state of `InitAssert`.
  abbrev made_in : ℤ → Condvar cond
  made_in state = record {
    inner = record {
      inner = posix.monotonic api.initializer;
      initialized = record { state = state; cell = some tt };
    };
  }

  -- `init` works once: it makes the condition variable with the monotonic clock, and `notify_one`
  -- and `notify_all` return after it, in debug builds too. A second `init` panics and leaves the
  -- condition variable, but from then on `notify_one` and `notify_all` panic.
  init_condvar_once :
      (rest : Rest mutex_api debug T)
      → (c : Condvar cond) × (c' : Condvar cond) × (v : cv.World) × (w : cv.World) × (init cond
            (uninit cond)
          ≡ (returned tt, c))
        × (c.inner.inner ≡ posix.monotonic api.initializer)
        × (notify_one cv (c.inner, rest) ≡ (returned tt, v))
        × (notify_all cv (c.inner, rest) ≡ (returned tt, w))
        × (init cond c ≡ (panicked, c'))
        × (c'.inner.inner ≡ c.inner.inner)
        × (notify_one cv (c'.inner, rest) ≡ (panicked, (c'.inner, rest)))
        × (notify_all cv (c'.inner, rest) ≡ (panicked, (c'.inner, rest)))
  unfolding init uninit notify_one notify_all RawCondvar.init RawCondvar.uninit
      RawCondvar.notify_one RawCondvar.notify_all InitAssert.new InitAssert.get
  init_condvar_once rest =
      let (c1, e1) = posix.signal (posix.monotonic api.initializer) rest in
      let (c2, e2) = posix.broadcast (posix.monotonic api.initializer) rest in
      let at_first = made_in init_state in
      (
        at_first,
        made_in in_progress_state,
        (record at_first.inner { inner = c1 }, rest),
        (record at_first.inner { inner = c2 }, rest),
        ground
            (arith, posix.attr_destroy posix.monotonic_attr, posix.init_monotonic api.initializer),
        refl,
        ground arith,
        ground arith,
        ground arith,
        refl,
        ground arith,
        ground arith,
      )
