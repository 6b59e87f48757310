-- ===== src/Sys/Unix/Mutex.antt =====
-- src/sys/unix/mutex.rs: a pthread mutex behind an `InitAssert`.
pub mod Contract
use pinned_sync.Base.{ℕ, Bool, Option, none, some, ◌==◌, if◌then◌else◌}
use pinned_sync.Effect.{
  Outcome, returned, blocked, M, pure, panic, gets, modify, debug_assert, on, scoped, with_local,
  ◌>>=◌, ◌>>◌,
}
use pinned_sync.Std.{Thread, unwrap}
use pinned_sync.SysCommon.InitAssert
use pinned_sync.SysCommon.InitAssert.{InitAssert, at_cell}
use pinned_sync.Sys.Interface.{SysMutex}
use pinned_sync.Sys.Unix.{cvt_nz}
use pinned_sync.Sys.Unix.Libc.{PthreadMutex, call, call_blocking}

-- The reference to the mutex is the object that the calls work on.
pub data MutexGuard : Type 0 where
  mutex_guard : MutexGuard

module _ (api : PthreadMutex) (debug : Bool) where
  open api use {
    Lock, Attr, normal, mutexattr_init, mutexattr_settype, mutexattr_destroy, mutex_init,
    mutex_lock, mutex_unlock,
  }

  pub record Mutex : Type 0 where
    pub lock : InitAssert Lock

  abbrev on_lock : {A : Type 0} → M (InitAssert Lock) A → M Mutex A
  on_lock = on (λ m. m.lock) (λ l m. record { lock = l })

  unfoldable pub uninit : Mutex
  uninit = record { lock = InitAssert.new }

  abbrev on_attr : {A : Type 0} → M (Option Attr) A → M (Option Attr × Option Lock) A
  on_attr = on (λ s. s.0) (λ a s. (a, s.1))

  abbrev on_pointer : {A : Type 0} → M (Option Lock) A → M (Option Attr × Option Lock) A
  on_pointer = on (λ s. s.1) (λ p s. (s.0, p))

  -- The destructor of `PthreadMutexAttr`.
  drop_attr : M (Option Attr × Option Lock) (Unit {0})
  drop_attr = do result ← on_attr (call mutexattr_destroy); debug_assert debug (result == 0)

  -- The closure that `init` hands to `init_with`.
  init_pointer : M (Option Lock) (Unit {0})
  unfolding drop_attr cvt_nz
  init_pointer = with_local none do
    unwrap (cvt_nz (← on_attr (call mutexattr_init)))
    scoped drop_attr do
      unwrap (cvt_nz (← on_attr (call (mutexattr_settype normal))))
      attr ← gets (λ s. s.0)
      unwrap (cvt_nz (← on_pointer (call (mutex_init attr))))

  unfoldable pub init : M Mutex (Unit {0})
  unfolding init_pointer InitAssert.init_with cvt_nz
  init = on_lock (InitAssert.init_with init_pointer)

  lock_inner : Thread → M Lock (Unit {0})
  lock_inner th = do result ← call_blocking (mutex_lock th.id); debug_assert debug (result == 0)

  unfoldable pub lock : Thread → M Mutex MutexGuard
  unfolding lock_inner InitAssert.get
  lock th = do on_lock InitAssert.get; on_lock (at_cell (lock_inner th)); pure mutex_guard

  unfoldable pub try_lock : Thread → M Mutex (Option MutexGuard)
  unfolding InitAssert.get
  try_lock th = do
    on_lock InitAssert.get
    result ← on_lock (at_cell (call_blocking (mutex_lock th.id)))
    pure (if result == 0 then some mutex_guard else none)

  unfoldable pub as_raw : MutexGuard → M Mutex (Unit {0})
  unfolding InitAssert.get
  as_raw g = on_lock InitAssert.get

  unfoldable pub drop_guard : Thread → MutexGuard → M Mutex (Unit {0})
  unfolding as_raw
  drop_guard th g = do
    as_raw g
    result ← on_lock (at_cell (call (mutex_unlock th.id)))
    debug_assert debug (result == 0)

  abbrev pub sys_mutex : SysMutex
  sys_mutex = record {
    Raw = Mutex;
    RawGuard = MutexGuard;
    uninit = uninit;
    init = init;
    lock = lock;
    try_lock = try_lock;
    drop_guard = drop_guard;
  }
