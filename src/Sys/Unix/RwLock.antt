-- ===== src/Sys/Unix/RwLock.antt =====
-- src/sys/unix/rwlock.rs: a pthread lock with the program's own record of writer and readers.
pub mod Access
pub mod Readers
pub mod Writers
pub mod Contract
pub mod Threads
pub mod Grants
pub mod Standing
pub mod Kept
pub mod Changes
pub mod Races
pub mod Rest
pub mod Going
pub mod Runs
pub mod ReaderRuns
pub mod WriterRuns
pub mod TryRuns
pub mod CallRuns
use pinned_sync.Base.{
  ℕ, ◌+◌, ◌-◌, ◌%◌, Bool, true, false, not, ◌&&◌, ◌||◌, Option, none, some, ◌==◌, if◌then◌else◌,
  usize_mod, wrapping_add,
}
use pinned_sync.Effect.{
  Outcome, returned, M, pure, panic, gets, modify, debug_assert, on, ◌>>=◌, ◌>>◌,
}
use pinned_sync.Std.{Thread}
use pinned_sync.SysCommon.InitAssert
use pinned_sync.SysCommon.InitAssert.{InitAssert}
use pinned_sync.Sys.Interface.{SysRwLock}
use pinned_sync.Sys.Unix.Libc.{PthreadRwLock, call, call_blocking}

-- References to the lock, which is the object that the calls work on.
pub data ReadGuard : Type 0 where
  read_guard : ReadGuard

pub data WriteGuard : Type 0 where
  write_guard : WriteGuard

module _ (api : PthreadRwLock) (debug : Bool) where
  open api use {
    Lock, initializer, eagain, edeadlk, tryrdlock, rdlock, trywrlock, wrlock,
    unlock as pthread_unlock,
  }

  -- `initialized` is there in a build with `debug_assertions`, and without it is not used.
  pub record RwLock : Type 0 where
    pub lock : Lock
    pub write_locked : Bool
    pub num_readers : ℕ
    pub initialized : InitAssert (Unit {0})

  abbrev on_lock : {A : Type 0} → M Lock A → M RwLock A
  on_lock = on (λ r. r.lock) (λ l r. record r { lock = l })

  abbrev on_initialized : {A : Type 0} → M (InitAssert (Unit {0})) A → M RwLock A
  on_initialized = on (λ r. r.initialized) (λ i r. record r { initialized = i })

  unfoldable pub uninit : RwLock
  uninit = record {
    lock = initializer;
    write_locked = false;
    num_readers = 0;
    initialized = InitAssert.new;
  }

  unfoldable pub init : M RwLock (Unit {0})
  unfolding InitAssert.init
  init = if debug then on_initialized (InitAssert.init (returned tt)) else pure tt

  -- `self.initialized.get()` under `#[cfg(debug_assertions)]`
  unfoldable pub check_init : M RwLock (Unit {0})
  unfolding InitAssert.get
  check_init = if debug then on_initialized InitAssert.get else pure tt

  -- `fetch_add(1)` and `fetch_sub(1)`
  abbrev add_reader : M RwLock (Unit {0})
  add_reader = modify (λ r. record r { num_readers = wrapping_add r.num_readers 1 })

  abbrev sub_reader : M RwLock (Unit {0})
  sub_reader = modify (λ r. record r { num_readers = (r.num_readers + usize_mod - 1) % usize_mod })

  abbrev set_write_locked : Bool → M RwLock (Unit {0})
  set_write_locked b = modify (λ r. record r { write_locked = b })

  unfoldable pub unlock : Thread → M RwLock (Unit {0})
  unlock th = do result ← on_lock (call (pthread_unlock th.id)); debug_assert debug (result == 0)

  unfoldable pub try_read : Thread → M RwLock (Option ReadGuard)
  unfolding check_init unlock
  try_read th = do
    check_init
    r ← on_lock (call (tryrdlock th.id))
    write_locked ← gets (λ s. s.write_locked)
    if r == 0
        then (if write_locked
            then (do unlock th; pure none)
            else (do add_reader; pure (some read_guard)))
        else pure none

  unfoldable pub read : Thread → M RwLock ReadGuard
  unfolding check_init unlock
  read th = do
    check_init
    r ← on_lock (call_blocking (rdlock th.id))
    write_locked ← gets (λ s. s.write_locked)
    if r == eagain
        then panic
        else if r == edeadlk || (r == 0 && write_locked)
        then (do (if r == 0 then unlock th else pure tt); panic)
        else (do debug_assert debug (r == 0); add_reader; pure read_guard)

  unfoldable pub try_write : Thread → M RwLock (Option WriteGuard)
  unfolding check_init unlock
  try_write th = do
    check_init
    r ← on_lock (call (trywrlock th.id))
    write_locked ← gets (λ s. s.write_locked)
    num_readers ← gets (λ s. s.num_readers)
    if r == 0
        then (if write_locked || not (num_readers == 0)
            then (do unlock th; pure none)
            else (do set_write_locked true; pure (some write_guard)))
        else pure none

  unfoldable pub write : Thread → M RwLock WriteGuard
  unfolding check_init unlock
  write th = do
    check_init
    r ← on_lock (call_blocking (wrlock th.id))
    write_locked ← gets (λ s. s.write_locked)
    num_readers ← gets (λ s. s.num_readers)
    if r == edeadlk || (r == 0 && write_locked) || not (num_readers == 0)
        then (do (if r == 0 then unlock th else pure tt); panic)
        else (do debug_assert debug (r == 0); set_write_locked true; pure write_guard)

  unfoldable pub drop_read : Thread → ReadGuard → M RwLock (Unit {0})
  unfolding unlock
  drop_read th g = do
    write_locked ← gets (λ s. s.write_locked)
    debug_assert debug (not write_locked)
    sub_reader
    unlock th

  unfoldable pub drop_write : Thread → WriteGuard → M RwLock (Unit {0})
  unfolding unlock
  drop_write th g = do
    num_readers ← gets (λ s. s.num_readers)
    debug_assert debug (num_readers == 0)
    write_locked ← gets (λ s. s.write_locked)
    debug_assert debug write_locked
    set_write_locked false
    unlock th

  abbrev pub sys_rw_lock : SysRwLock
  sys_rw_lock = record {
    Raw = RwLock;
    ReadGuard = ReadGuard;
    WriteGuard = WriteGuard;
    uninit = uninit;
    init = init;
    try_read = try_read;
    read = read;
    try_write = try_write;
    write = write;
    drop_read = drop_read;
    drop_write = drop_write;
  }
