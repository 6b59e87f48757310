-- ===== src/Sys/Unix/RwLock/Writers.antt =====
-- Writing through src/sys/unix/rwlock.rs, over a C library that may grant a lock when it should
-- not.
use pinned_sync.Base.{◌≡◌, refl, ◌≢◌, ◌⊎◌, inl, inr, Bool, true, false, none, some, arith}
use pinned_sync.Effect.{returned, panicked, blocked}
use pinned_sync.Std.{Thread}
use pinned_sync.Sys.Interface.{Access, shared, exclusive, HasHolder, some_readers, one_writer}
use pinned_sync.Sys.Unix.Libc.{PthreadRwLock, PosixRwLock}
use pinned_sync.Sys.Unix.RwLock.{RwLock, WriteGuard, write_guard, try_write, write, drop_write}
use pinned_sync.Sys.Unix.RwLock.Access.{IsReady, InAccess}

module _ (api : PthreadRwLock) (debug : Bool) (posix : PosixRwLock api) where
  open posix use {
    readers, writer, again, deadlk, distinct, wrlock_free, wrlock_busy, trywrlock_free,
    trywrlock_busy, unlock_exclusive,
  }

  abbrev Holds : RwLock api debug → Access → Type 0
  Holds = InAccess api debug posix

  pub write_free :
      (th : Thread) (r : RwLock api debug)
      → Holds r (shared 0)
      → (g : WriteGuard) × (r' : RwLock api debug) × (write api debug th r ≡ (returned g, r'))
        × Holds r' (exclusive th.id)
  unfolding write
  write_free th r h =
      let (l', granted, no_reader, writes) = wrlock_free th.id r.lock h.1 h.2 in
      (
        write_guard,
        record r { lock = l'; write_locked = true },
        ground arith,
        (h.0, no_reader, writes, refl, h.4),
      )

  pub try_write_free :
      (th : Thread) (r : RwLock api debug)
      → Holds r (shared 0)
      → (g : WriteGuard) × (r' : RwLock api debug) × (try_write api debug th r
          ≡ (returned (some g), r'))
        × Holds r' (exclusive th.id)
  unfolding try_write
  try_write_free th r h =
      let (l', granted, no_reader, writes) = trywrlock_free th.id r.lock h.1 h.2 in
      (
        write_guard,
        record r { lock = l'; write_locked = true },
        ground arith,
        (h.0, no_reader, writes, refl, h.4),
      )

  -- Some thread has the pthread lock, and the program's record says so.
  abbrev IsBusy : RwLock api debug → Type 0
  IsBusy r =
      IsReady api debug posix r
      × ((readers r.lock ≢ 0) ⊎ (writer r.lock ≢ none))
      × ((r.write_locked ≡ true) ⊎ (r.num_readers ≢ 0))

  busy : (a : Access) (r : RwLock api debug) → HasHolder a → Holds r a → IsBusy r
  busy _ r (some_readers c) h = (h.0, inl (ground arith), inr (ground arith))
  busy _ r (one_writer u) h = (h.0, inr (ground arith), inl h.3)

  pub write_busy :
      (th : Thread) (a : Access) (r : RwLock api debug)
      → HasHolder a
      → Holds r a
      → (write api debug th r ≡ (blocked, r)) ⊎ (write api debug th r ≡ (panicked, r))
  unfolding write
  write_busy th a r holder h =
      let (ready, taken, recorded) = busy a r holder h in
      elim (wrlock_busy th.id r.lock taken) [
        | inl waits ↦ inl (ground arith)
        | inr (inl deadlock) ↦ inr (ground arith)
        | inr (inr (l', granted, undone)) ↦ inr (ground arith)
      ]

  pub try_write_busy :
      (th : Thread) (a : Access) (r : RwLock api debug)
      → HasHolder a
      → Holds r a
      → try_write api debug th r ≡ (returned none, r)
  unfolding try_write
  try_write_busy th a r holder h =
      let (ready, taken, recorded) = busy a r holder h in
      elim (trywrlock_busy th.id r.lock taken) [
        | inl (code, nonzero, refused) ↦ ground arith
        | inr (l', granted, undone) ↦ ground arith
      ]

  pub drop_write_exclusive :
      (th : Thread) (g : WriteGuard) (r : RwLock api debug)
      → Holds r (exclusive th.id)
      → (r' : RwLock api debug) × (drop_write api debug th g r ≡ (returned tt, r'))
        × Holds r' (shared 0)
  unfolding drop_write
  drop_write_exclusive th g r h =
      let (l', done, no_reader, none_writes) = unlock_exclusive th.id r.lock h.2 in
      (
        record r { lock = l'; write_locked = false },
        ground arith,
        (h.0, no_reader, none_writes, refl, h.4),
      )
