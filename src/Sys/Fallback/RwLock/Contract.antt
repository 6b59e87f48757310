-- ===== src/Sys/Fallback/RwLock/Contract.antt =====
-- The contract of `SysRwLock` for src/sys/fallback/rwlock.rs.
use pinned_sync.Base.{ℕ, suc, ◌≡◌, refl, inl, Bool, false, Option, none, some, arith}
use pinned_sync.Effect.{returned, blocked}
use pinned_sync.Std.{Thread}
use pinned_sync.Std.Sync
use pinned_sync.Std.Sync.{StdGuard}
use pinned_sync.SysCommon.InitAssert
use pinned_sync.SysCommon.InitAssert.{InitAssert, init_state}
use pinned_sync.Sys.Interface.{
  Access, unready, shared, exclusive, HasHolder, some_readers, one_writer, SysRwLockLaws,
}
use pinned_sync.Sys.Fallback.RwLock.{
  RwLock, uninit, init, try_read, read, try_write, write, drop_read, drop_write, sys_rw_lock,
}

abbrev pub ready : ℕ → Option ℕ → Bool → RwLock
ready readers writer failed = record {
  rw_lock = record {
    state = init_state;
    cell = some (record { readers = readers; writer = writer; failed = failed });
  };
}

-- The poison flag of the library is of no account.
abbrev pub InAccess : RwLock → Access → Type 0
InAccess r unready = r ≡ uninit
InAccess r (shared c) = (failed : Bool) × (r ≡ ready c none failed)
InAccess r (exclusive u) = (failed : Bool) × (r ≡ ready 0 (some u) failed)

-- The guard that the library makes, whatever its flag says.
abbrev guard_for : Thread → StdGuard
guard_for th = record { panicking = th.panicking }

module _ (th : Thread) (r : RwLock) where
  read_shared :
      (c : ℕ)
      → InAccess r (shared c)
      → (g : Unit {0}) × (r' : RwLock) × (read th r ≡ (returned g, r'))
        × InAccess r' (shared (suc c))
  unfolding read
  read_shared c (b, e) = (tt, ready (suc c) none b, ground arith, (b, refl))

  try_read_shared :
      (c : ℕ)
      → InAccess r (shared c)
      → (g : Unit {0}) × (r' : RwLock) × (try_read th r ≡ (returned (some g), r'))
        × InAccess r' (shared (suc c))
  unfolding try_read
  try_read_shared c (b, e) = (tt, ready (suc c) none b, ground arith, (b, refl))

  read_exclusive : (u : ℕ) → InAccess r (exclusive u) → read th r ≡ (blocked, r)
  unfolding read
  read_exclusive u (b, e) = ground arith

  try_read_exclusive : (u : ℕ) → InAccess r (exclusive u) → try_read th r ≡ (returned none, r)
  unfolding try_read
  try_read_exclusive u (b, e) = ground arith

  write_free :
      InAccess r (shared 0)
      → (g : StdGuard) × (r' : RwLock) × (write th r ≡ (returned g, r'))
        × InAccess r' (exclusive th.id)
  unfolding write
  write_free (b, e) = (guard_for th, ready 0 (some th.id) b, ground arith, (b, refl))

  try_write_free :
      InAccess r (shared 0)
      → (g : StdGuard) × (r' : RwLock) × (try_write th r ≡ (returned (some g), r'))
        × InAccess r' (exclusive th.id)
  unfolding try_write
  try_write_free (b, e) = (guard_for th, ready 0 (some th.id) b, ground arith, (b, refl))

  write_busy : (a : Access) → HasHolder a → InAccess r a → write th r ≡ (blocked, r)
  unfolding write
  write_busy _ (some_readers c) (b, e) = ground arith
  write_busy _ (one_writer u) (b, e) = ground arith

  try_write_busy : (a : Access) → HasHolder a → InAccess r a → try_write th r ≡ (returned none, r)
  unfolding try_write
  try_write_busy _ (some_readers c) (b, e) = ground arith
  try_write_busy _ (one_writer u) (b, e) = ground arith

  drop_read_shared :
      (g : Unit {0}) (c : ℕ)
      → InAccess r (shared (suc c))
      → (r' : RwLock) × (drop_read th g r ≡ (returned tt, r')) × InAccess r' (shared c)
  unfolding drop_read
  drop_read_shared g c (b, e) = (ready c none b, ground arith, (b, refl))

  drop_write_exclusive :
      (g : StdGuard)
      → InAccess r (exclusive th.id)
      → (r' : RwLock) × (drop_write th g r ≡ (returned tt, r')) × InAccess r' (shared 0)
  unfolding drop_write
  drop_write_exclusive g (b, e) =
      (ready 0 none (Sync.fails th g b), ground arith, (Sync.fails th g b, refl))

init_unready :
    (r : RwLock)
    → InAccess r unready
    → (r' : RwLock) × (init r ≡ (returned tt, r')) × InAccess r' (shared 0)
unfolding uninit init InitAssert.new
init_unready r e = (ready 0 none false, ground arith, (false, refl))

shared_not_exclusive : (c u : ℕ) (r : RwLock) → InAccess r (shared c) → ¬ InAccess r (exclusive u)
shared_not_exclusive c u r (b, e) (b', e') = ground arith

-- The fallback lock keeps the whole contract of `sys::rwlock`, whatever the poison flag inside of
-- the library's lock says.
pub fallback_rw_lock-SysRwLockLaws : SysRwLockLaws sys_rw_lock InAccess
fallback_rw_lock-SysRwLockLaws = record {
  shared_not_exclusive = shared_not_exclusive;
  uninit_unready = refl;
  init_unready = init_unready;
  read_shared = λ th c r room h. inl (read_shared th r c h);
  read_exclusive = λ th u r h. inl (read_exclusive th r u h);
  try_read_shared = λ th c r room h. inl (try_read_shared th r c h);
  try_read_exclusive = λ th u r h. try_read_exclusive th r u h;
  write_free = λ th r h. write_free th r h;
  write_busy = λ th a r holder h. inl (write_busy th r a holder h);
  try_write_free = λ th r h. try_write_free th r h;
  try_write_busy = λ th a r holder h. try_write_busy th r a holder h;
  drop_read_shared = λ th g c r room h. drop_read_shared th r g c h;
  drop_write_exclusive = λ th g r h. drop_write_exclusive th r g h;
}
