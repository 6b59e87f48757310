-- ===== src/Sys/Unix/RwLock/Access.antt =====
-- When the record of src/sys/unix/rwlock.rs agrees with its pthread lock.
use pinned_sync.Base.{◌≡◌, Bool, true, false, none, some}
use pinned_sync.SysCommon.InitAssert.{init_state}
use pinned_sync.Sys.Interface.{Access, unready, shared, exclusive}
use pinned_sync.Sys.Unix.Libc.{PthreadRwLock, PosixRwLock}
use pinned_sync.Sys.Unix.RwLock.{RwLock, uninit}

module _ (api : PthreadRwLock) (debug : Bool) (posix : PosixRwLock api) where
  open posix use {readers, writer}

  abbrev pub IsReady : RwLock api debug → Type 0
  IsReady r = debug ≡ true → r.initialized.state ≡ init_state

  -- The program's record agrees with the lock.
  abbrev pub InAccess : RwLock api debug → Access → Type 0
  InAccess r unready = r ≡ uninit api debug
  InAccess r (shared c) =
      IsReady r
      × (readers r.lock ≡ c)
      × (writer r.lock ≡ none)
      × (r.write_locked ≡ false)
      × (r.num_readers ≡ c)
  InAccess r (exclusive u) =
      IsReady r
      × (readers r.lock ≡ 0)
      × (writer r.lock ≡ some u)
      × (r.write_locked ≡ true)
      × (r.num_readers ≡ 0)
