-- ===== src/Sys/Unix/RwLock/Contract.antt =====
-- The contract of `SysRwLock` for src/sys/unix/rwlock.rs, over a C library that may grant a lock
-- when it should not.
use pinned_sync.Base.{◌≡◌, refl, Bool, arith}
use pinned_sync.Effect.{returned}
use pinned_sync.SysCommon.InitAssert
use pinned_sync.Sys.Interface.{unready, shared, SysRwLockLaws}
use pinned_sync.Sys.Unix.Libc.{PthreadRwLock, PosixRwLock}
use pinned_sync.Sys.Unix.RwLock.{RwLock, uninit, init, sys_rw_lock}
use pinned_sync.Sys.Unix.RwLock.Access.{InAccess}
use pinned_sync.Sys.Unix.RwLock.Readers.{
  read_shared, read_exclusive, try_read_shared, try_read_exclusive, drop_read_shared,
}
use pinned_sync.Sys.Unix.RwLock.Writers.{
  write_free, write_busy, try_write_free, try_write_busy, drop_write_exclusive,
}

module _ (api : PthreadRwLock) (debug : Bool) (posix : PosixRwLock api) where
  open posix use {fresh}

  init_unready :
      (r : RwLock api debug)
      → InAccess api debug posix r unready
      → (r' : RwLock api debug) × (init api debug r ≡ (returned tt, r'))
        × InAccess api debug posix r' (shared 0)
  unfolding uninit init InitAssert.new
  init_unready r e = (
    (init api debug r).1,
    ground (arith, fresh),
    (ground arith, ground (arith, fresh), ground (arith, fresh), ground arith, ground arith),
  )

  -- Over a POSIX lock the pthread implementation keeps the whole contract of `sys::rwlock`.
  pub sys_rw_lock-SysRwLockLaws : SysRwLockLaws (sys_rw_lock api debug) (InAccess api debug posix)
  sys_rw_lock-SysRwLockLaws = record {
    shared_not_exclusive = λ c u r h h'. cc;
    uninit_unready = refl;
    init_unready = init_unready;
    read_shared = read_shared api debug posix;
    read_exclusive = read_exclusive api debug posix;
    try_read_shared = try_read_shared api debug posix;
    try_read_exclusive = try_read_exclusive api debug posix;
    write_free = write_free api debug posix;
    write_busy = write_busy api debug posix;
    try_write_free = try_write_free api debug posix;
    try_write_busy = try_write_busy api debug posix;
    drop_read_shared = drop_read_shared api debug posix;
    drop_write_exclusive = drop_write_exclusive api debug posix;
  }
