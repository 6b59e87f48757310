-- ===== src/Condvar/OverFallback.antt =====
-- src/condvar.rs over src/sys/fallback, in a world of one condition variable, one mutex and a
-- clock.
use pinned_sync.Base.{ℕ, Bool, ◌≡◌, true, not, ◌&&◌, ◌||◌, refl, none, arith}
use pinned_sync.Effect.{panicked, M, on}
use pinned_sync.Std.{Thread}
use pinned_sync.Std.Sync.{StdCondvar}
use pinned_sync.SysCommon.InitAssert
use pinned_sync.SysCommon.InitAssert.{InitAssert}
use pinned_sync.Sys.Interface.{SysCond, free, held}
use pinned_sync.Sys.Fallback.Mutex as Raw
use pinned_sync.Sys.Fallback.Mutex.Contract.{InPhase, ready}
use pinned_sync.Sys.Fallback.Condvar as RawCondvar
use pinned_sync.Mutex
use pinned_sync.Mutex.{Mutex, MutexGuard, is_poisoned}
use pinned_sync.Condvar.{SysCondvar, wait}

module _ (relock_panics : Bool) (T : Type 0) where
  -- What is beside the condition variable.
  pub record Rest : Type 0 where
    pub mutex : Mutex (Raw.sys_mutex relock_panics) T
    pub clock : ℕ

  abbrev pub drop_raw : Thread → (Raw.sys_mutex relock_panics).RawGuard → M Rest (Unit {0})
  drop_raw th g =
      on (λ r. r.mutex) (λ m r. record r { mutex = m })
        (Mutex.on_inner (Raw.sys_mutex relock_panics)
          ((Raw.sys_mutex relock_panics).drop_guard th g))

  module _ (std : StdCondvar Rest) where
    abbrev pub World : Type 0
    World = RawCondvar.Condvar std drop_raw × Rest

    abbrev pub sys_condvar : SysCondvar (Raw.sys_mutex relock_panics) T
    sys_condvar = record {
      World = World;
      mutex_of = λ w. w.1.mutex;
      set_mutex = λ m w. (w.0, record w.1 { mutex = m });
      now = λ w. w.1.clock;
      notify_one = RawCondvar.notify_one std drop_raw;
      notify_all = RawCondvar.notify_all std drop_raw;
      wait = RawCondvar.wait std drop_raw;
      wait_timeout = RawCondvar.wait_timeout std drop_raw;
    }

    abbrev pub sys_cond : SysCond
    sys_cond = record {
      Raw = RawCondvar.Condvar std drop_raw;
      uninit = RawCondvar.uninit std drop_raw;
      init = RawCondvar.init std drop_raw;
    }

    -- On a condition variable that was not initialized, `wait` by the holder of the mutex panics
    -- and frees the mutex, but the mutex is not poisoned by that panic: the flag and the value stay
    -- as they were.
    wait_panics_unpoisoned :
        (th : Thread) (g : MutexGuard (Raw.sys_mutex relock_panics)) (rest : Rest)
        → InPhase rest.mutex.inner (held th.id)
        → (w' : World) × (wait sys_condvar th g (RawCondvar.uninit std drop_raw, rest)
            ≡ (panicked, w'))
          × InPhase w'.1.mutex.inner free
          × (w'.1.mutex.poison ≡ rest.mutex.poison)
          × (w'.1.mutex.cell ≡ rest.mutex.cell)
    unfolding wait RawCondvar.wait RawCondvar.uninit Raw.drop_guard Mutex.map InitAssert.new
    wait_panics_unpoisoned th g rest (b, e) = (
      (
        RawCondvar.uninit std drop_raw,
        record rest {
          mutex = record rest.mutex { inner = ready none (b || (not g.guard.panicking && true)) };
        },
      ),
      ground arith,
      (_, refl),
      refl,
      refl,
    )
