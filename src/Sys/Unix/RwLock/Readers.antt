-- ===== src/Sys/Unix/RwLock/Readers.antt =====
-- Reading through src/sys/unix/rwlock.rs, over a C library that may grant a lock when it should
-- not.
use pinned_sync.Base.{ℕ, suc, ◌<◌, ◌≡◌, refl, ◌⊎◌, inl, inr, Bool, none, some, arith, usize_mod}
use pinned_sync.Effect.{returned, panicked, blocked}
use pinned_sync.Std.{Thread}
use pinned_sync.Sys.Interface.{Access, shared, exclusive}
use pinned_sync.Sys.Unix.Libc.{PthreadRwLock, PosixRwLock}
use pinned_sync.Sys.Unix.RwLock.{RwLock, ReadGuard, read_guard, try_read, read, drop_read}
use pinned_sync.Sys.Unix.RwLock.Access.{InAccess}

module _ (api : PthreadRwLock) (debug : Bool) (posix : PosixRwLock api) where
  open posix use {
    readers, writer, again, deadlk, distinct, rdlock_shared, rdlock_exclusive, tryrdlock_shared,
    tryrdlock_exclusive, unlock_shared,
  }

  abbrev Holds : RwLock api debug → Access → Type 0
  Holds = InAccess api debug posix

  pub read_shared :
      (th : Thread) (c : ℕ) (r : RwLock api debug)
      → suc c < usize_mod
      → Holds r (shared c)
      → ((g : ReadGuard) × (r' : RwLock api debug) × (read api debug th r ≡ (returned g, r'))
          × Holds r' (shared (suc c)))
        ⊎ (read api debug th r ≡ (panicked, r))
  unfolding read
  read_shared th c r room h = elim (rdlock_shared th.id r.lock h.2) [
    | inl (l', granted, more, none_writes) ↦ inl (
      read_guard,
      record r { lock = l'; num_readers = suc c },
      ground arith,
      (h.0, ground arith, none_writes, h.3, refl),
    )
    | inr full ↦ inr (ground arith)
  ]

  pub read_exclusive :
      (th : Thread) (u : ℕ) (r : RwLock api debug)
      → Holds r (exclusive u)
      → (read api debug th r ≡ (blocked, r)) ⊎ (read api debug th r ≡ (panicked, r))
  unfolding read
  read_exclusive th u r h = elim (rdlock_exclusive th.id u r.lock h.2) [
    | inl waits ↦ inl (ground arith)
    | inr (inl deadlock) ↦ inr (ground arith)
    | inr (inr (l', granted, undone)) ↦ inr (ground arith)
  ]

  pub try_read_shared :
      (th : Thread) (c : ℕ) (r : RwLock api debug)
      → suc c < usize_mod
      → Holds r (shared c)
      → ((g : ReadGuard) × (r' : RwLock api debug) × (try_read api debug th r
            ≡ (returned (some g), r'))
          × Holds r' (shared (suc c)))
        ⊎ (try_read api debug th r ≡ (returned none, r))
  unfolding try_read
  try_read_shared th c r room h = elim (tryrdlock_shared th.id r.lock h.2) [
    | inl (l', granted, more, none_writes) ↦ inl (
      read_guard,
      record r { lock = l'; num_readers = suc c },
      ground arith,
      (h.0, ground arith, none_writes, h.3, refl),
    )
    | inr (code, nonzero, refused) ↦ inr (ground arith)
  ]

  pub try_read_exclusive :
      (th : Thread) (u : ℕ) (r : RwLock api debug)
      → Holds r (exclusive u)
      → try_read api debug th r ≡ (returned none, r)
  unfolding try_read
  try_read_exclusive th u r h = elim (tryrdlock_exclusive th.id u r.lock h.2) [
    | inl (code, nonzero, refused) ↦ ground arith
    | inr (l', granted, undone) ↦ ground arith
  ]

  pub drop_read_shared :
      (th : Thread) (g : ReadGuard) (c : ℕ) (r : RwLock api debug)
      → suc c < usize_mod
      → Holds r (shared (suc c))
      → (r' : RwLock api debug) × (drop_read api debug th g r ≡ (returned tt, r'))
        × Holds r' (shared c)
  unfolding drop_read
  drop_read_shared th g c r room h =
      let (l', done, fewer, none_writes) = unlock_shared th.id c r.lock h.1 h.2 in
      (record r { lock = l'; num_readers = c }, ground arith, (h.0, fewer, none_writes, h.3, refl))
