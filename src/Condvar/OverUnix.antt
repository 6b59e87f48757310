-- ===== src/Condvar/OverUnix.antt =====
-- src/condvar.rs over src/sys/unix with a monotonic clock, in a world of one condition variable,
-- one mutex and what else there is.
pub mod Timed
pub mod Lifecycle
use pinned_sync.Base.{ℕ, ◌/◌, ◌%◌, ◌≡◌, refl, Bool, true, arith}
use pinned_sync.Effect.{panicked, M, on}
use pinned_sync.Std.{Thread}
use pinned_sync.SysCommon.InitAssert
use pinned_sync.SysCommon.InitAssert.{InitAssert}
use pinned_sync.Sys.Interface.{SysMutex, SysCond, free, held}
use pinned_sync.Sys.Unix.Libc.{PthreadMutex, PosixMutex, PthreadCond}
use pinned_sync.Sys.Unix.Mutex as Raw
use pinned_sync.Sys.Unix.Mutex.Contract.{InPhase, ready}
use pinned_sync.Sys.Unix.Condvar as RawCondvar
use pinned_sync.Sys.Unix.Condvar.Time.{Duration, giga}
use pinned_sync.Mutex
use pinned_sync.Mutex.{Mutex, MutexGuard}
use pinned_sync.Condvar.{SysCondvar, wait, wait_timeout, notify_one, notify_all}

module _ (mutex_api : PthreadMutex) (debug : Bool) (T : Type 0) where
  abbrev pub sys : SysMutex
  sys = Raw.sys_mutex mutex_api debug

  -- What is beside the condition variable.
  pub record Rest : Type 0 where
    pub mutex : Mutex sys T
    pub clock : ℕ

  abbrev on_raw : {A : Type 0} → M (Raw.Mutex mutex_api debug) A → M Rest A
  on_raw m = on (λ r. r.mutex) (λ x r. record r { mutex = x }) (Mutex.on_inner sys m)

  abbrev pub as_raw : Raw.MutexGuard → M Rest (Unit {0})
  as_raw g = on_raw (Raw.as_raw mutex_api debug g)

  abbrev pub drop_raw : Thread → Raw.MutexGuard → M Rest (Unit {0})
  drop_raw th g = on_raw (Raw.drop_guard mutex_api debug th g)

  -- `Duration` from nanoseconds.
  abbrev pub duration : ℕ → Duration
  duration n = record { secs = n / giga; nanos = n % giga }

  module _ (api : PthreadCond Rest) where
    abbrev pub World : Type 0
    World = RawCondvar.Condvar api debug true as_raw drop_raw × Rest

    abbrev pub fresh : RawCondvar.Condvar api debug true as_raw drop_raw
    fresh = RawCondvar.uninit api debug true as_raw drop_raw

    abbrev pub sys_condvar : SysCondvar sys T
    sys_condvar = record {
      World = World;
      mutex_of = λ w. w.1.mutex;
      set_mutex = λ m w. (w.0, record w.1 { mutex = m });
      now = λ w. w.1.clock;
      notify_one = RawCondvar.notify_one api debug true as_raw drop_raw;
      notify_all = RawCondvar.notify_all api debug true as_raw drop_raw;
      wait = RawCondvar.wait api debug true as_raw drop_raw;
      wait_timeout =
          λ th g dur. RawCondvar.wait_timeout api debug true as_raw drop_raw th g (duration dur);
    }

    abbrev pub sys_cond : SysCond
    sys_cond = record {
      Raw = RawCondvar.Condvar api debug true as_raw drop_raw;
      uninit = fresh;
      init = RawCondvar.init api debug true as_raw drop_raw;
    }

    -- What a call `m` in the world `w` leaves that panics and drops the guard it was given, but does
    -- not poison the mutex by that.
    abbrev pub PanicsUnpoisoned : {A : Type 0} → PosixMutex mutex_api → M World A → World → Type 0
    PanicsUnpoisoned posix m w =
        (w' : World) × (m w ≡ (panicked, w'))
        × InPhase mutex_api debug posix w'.1.mutex.inner free
        × (w'.1.mutex.poison ≡ w.1.mutex.poison)
        × (w'.1.mutex.cell ≡ w.1.mutex.cell)

    -- The world after the holder of the mutex has unlocked it.
    abbrev unlocked : PosixMutex mutex_api → (l : mutex_api.Lock) → Rest → World
    unlocked posix l rest =
        (fresh, record rest { mutex = record rest.mutex { inner = ready mutex_api debug posix l } })

    -- On a condition variable that was not initialized, where there is a monotonic clock,
    -- `notify_one` and `notify_all` panic and change nothing. `wait` and `wait_timeout` by the
    -- holder of the mutex panic and unlock the mutex, but the mutex is not poisoned by that panic:
    -- the flag and the value stay as they were.
    pub uninit_calls_panic :
        (posix : PosixMutex mutex_api) (th : Thread) (g : MutexGuard sys) (dur : ℕ) (rest : Rest)
        → InPhase mutex_api debug posix rest.mutex.inner (held th.id)
        → (notify_one sys_condvar (fresh, rest) ≡ (panicked, (fresh, rest)))
          × (notify_all sys_condvar (fresh, rest) ≡ (panicked, (fresh, rest)))
          × PanicsUnpoisoned posix (wait sys_condvar th g) (fresh, rest)
          × PanicsUnpoisoned posix (wait_timeout sys_condvar th g dur) (fresh, rest)
    unfolding wait wait_timeout notify_one notify_all RawCondvar.wait RawCondvar.wait_timeout
        RawCondvar.notify_one RawCondvar.notify_all RawCondvar.uninit Raw.drop_guard Raw.as_raw
        Mutex.map InitAssert.new
    uninit_calls_panic posix th g dur rest (l, e, f) =
        let (l', c, o) = posix.unlock_owned th.id l f in
        (
          ground arith,
          ground arith,
          (unlocked posix l' rest, ground arith, (l', refl, o), refl, refl),
          (unlocked posix l' rest, ground arith, (l', refl, o), refl, refl),
        )
