-- ===== src/Sys/Interface/RwLock.antt =====
-- What src/rwlock.rs uses of a platform: the operations of `sys::rwlock`, and their contract.
use pinned_sync.Base.{ℕ, suc, ◌<◌, ◌≡◌, ◌⊎◌, Option, none, some, usize_mod}
use pinned_sync.Effect.{returned, panicked, blocked, M}
use pinned_sync.Std.{Thread}

pub record SysRwLock : Type 1 where
  pub Raw : Type 0
  pub ReadGuard : Type 0
  pub WriteGuard : Type 0
  pub uninit : Raw
  pub init : M Raw (Unit {0})
  pub try_read : Thread → M Raw (Option ReadGuard)
  pub read : Thread → M Raw ReadGuard
  pub try_write : Thread → M Raw (Option WriteGuard)
  pub write : Thread → M Raw WriteGuard
  pub drop_read : Thread → ReadGuard → M Raw (Unit {0})
  pub drop_write : Thread → WriteGuard → M Raw (Unit {0})

-- Who has access once the lock is initialized: a number of readers, or one writer.
pub data Access : Type 0 where
  unready : Access
  shared : (readers : ℕ) → Access
  exclusive : (thread : ℕ) → Access

pub data HasHolder : Access → Type 0 where
  some_readers : (c : ℕ) → HasHolder (shared (suc c))
  one_writer : (u : ℕ) → HasHolder (exclusive u)

-- `InAccess` says what memory looks like. A blocking call on a lock that it cannot have may wait or
-- panic, and `read` may panic where the system has no room for another reader.
module _ (l : SysRwLock) (InAccess : l.Raw → Access → Type 0) where
  open l use {
    Raw, ReadGuard, WriteGuard, uninit, init, try_read, read, try_write, write, drop_read,
    drop_write,
  }

  pub record SysRwLockLaws : Type 0 where
    pub shared_not_exclusive :
        (c u : ℕ) (r : Raw) → InAccess r (shared c) → ¬ InAccess r (exclusive u)
    pub uninit_unready : InAccess uninit unready
    pub init_unready :
        (r : Raw)
        → InAccess r unready
        → (r' : Raw) × (init r ≡ (returned tt, r')) × InAccess r' (shared 0)
    pub read_shared :
        (th : Thread) (c : ℕ) (r : Raw)
        → suc c < usize_mod
        → InAccess r (shared c)
        → ((g : ReadGuard) × (r' : Raw) × (read th r ≡ (returned g, r'))
            × InAccess r' (shared (suc c)))
          ⊎ (read th r ≡ (panicked, r))
    pub read_exclusive :
        (th : Thread) (u : ℕ) (r : Raw)
        → InAccess r (exclusive u)
        → (read th r ≡ (blocked, r)) ⊎ (read th r ≡ (panicked, r))
    pub try_read_shared :
        (th : Thread) (c : ℕ) (r : Raw)
        → suc c < usize_mod
        → InAccess r (shared c)
        → ((g : ReadGuard) × (r' : Raw) × (try_read th r ≡ (returned (some g), r'))
            × InAccess r' (shared (suc c)))
          ⊎ (try_read th r ≡ (returned none, r))
    pub try_read_exclusive :
        (th : Thread) (u : ℕ) (r : Raw)
        → InAccess r (exclusive u)
        → try_read th r ≡ (returned none, r)
    pub write_free :
        (th : Thread) (r : Raw)
        → InAccess r (shared 0)
        → (g : WriteGuard) × (r' : Raw) × (write th r ≡ (returned g, r'))
          × InAccess r' (exclusive th.id)
    pub write_busy :
        (th : Thread) (a : Access) (r : Raw)
        → HasHolder a
        → InAccess r a
        → (write th r ≡ (blocked, r)) ⊎ (write th r ≡ (panicked, r))
    pub try_write_free :
        (th : Thread) (r : Raw)
        → InAccess r (shared 0)
        → (g : WriteGuard) × (r' : Raw) × (try_write th r ≡ (returned (some g), r'))
          × InAccess r' (exclusive th.id)
    pub try_write_busy :
        (th : Thread) (a : Access) (r : Raw)
        → HasHolder a
        → InAccess r a
        → try_write th r ≡ (returned none, r)
    pub drop_read_shared :
        (th : Thread) (g : ReadGuard) (c : ℕ) (r : Raw)
        → suc c < usize_mod
        → InAccess r (shared (suc c))
        → (r' : Raw) × (drop_read th g r ≡ (returned tt, r')) × InAccess r' (shared c)
    pub drop_write_exclusive :
        (th : Thread) (g : WriteGuard) (r : Raw)
        → InAccess r (exclusive th.id)
        → (r' : Raw) × (drop_write th g r ≡ (returned tt, r')) × InAccess r' (shared 0)
