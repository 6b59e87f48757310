-- ===== src/RwLock/Calls.antt =====
-- What one call of a method of `RwLock` does for each access that the platform's lock gives
-- (src/rwlock.rs).
use pinned_sync.Base.{ℕ, zero, suc, ◌<◌, ◌≡◌, refl, ◌⊎◌, inl, inr, arith, usize_mod}
use pinned_sync.Effect.{returned}
use pinned_sync.Std.{
  ok, err, poisoned, would_block, LockResult, PoisonError, inner_of, is_err, Thread,
}
use pinned_sync.SysCommon.Poison
use pinned_sync.SysCommon.Poison.{map_result}
use pinned_sync.Sys.Interface.{
  SysRwLock, Access, shared, exclusive, HasHolder, some_readers, one_writer, SysRwLockLaws,
}
use pinned_sync.RwLock.{
  RwLock, RwLockReadGuard, RwLockWriteGuard, read, try_read, write, try_write, is_poisoned,
}

module _ (sys : SysRwLock) (InAccess : sys.Raw → Access → Type 0)
    (laws : SysRwLockLaws sys InAccess) where
  module _ {T : Type 0} where
    -- The lock has `c` readers, or a writer.
    abbrev pub IsLive : ℕ → RwLock sys T → Type 0
    IsLive c m = InAccess m.inner (shared c) ⊎ ((u : ℕ) × InAccess m.inner (exclusive u))

    -- A reader has been added, and nothing else has changed.
    pub record ReadAcquired (c : ℕ) (m m' : RwLock sys T) : Type 0 where
      pub was_shared : InAccess m.inner (shared c)
      pub now_shared : InAccess m'.inner (shared (suc c))
      pub same_poison : m'.poison ≡ m.poison
      pub same_cell : m'.cell ≡ m.cell

    -- The thread has become the only one that has access.
    pub record WriteAcquired (th : Thread) (c : ℕ) (m m' : RwLock sys T) (g : RwLockWriteGuard sys)
        : Type 0 where
      pub no_reader : c ≡ 0
      pub was_shared : InAccess m.inner (shared c)
      pub now_exclusive : InAccess m'.inner (exclusive th.id)
      pub same_poison : m'.poison ≡ m.poison
      pub same_cell : m'.cell ≡ m.cell
      pub noted : g.poison.panicking ≡ th.panicking

    module _ (th : Thread) (c : ℕ) (m m' : RwLock sys T) (live : IsLive c m) where
      pub read-ReadAcquired :
          (r : LockResult (RwLockReadGuard sys))
          → suc c < usize_mod
          → read sys th m ≡ (returned r, m')
          → ReadAcquired c m m' × (is_err r ≡ is_poisoned sys m)
      unfolding read is_poisoned Poison.borrow map_result Poison.get
      read-ReadAcquired r room e = elim live [
        | inl h ↦ elim (laws.read_shared th c m.inner room h) [
          | inl (g, raw, e', h') ↦ ground arith
          | inr full ↦ absurd (ground arith)
        ]
        | inr (u, h) ↦ absurd (ground (arith, laws.read_exclusive th u m.inner h))
      ]

      pub try_read-ReadAcquired :
          (g : RwLockReadGuard sys)
          → suc c < usize_mod
          → try_read sys th m ≡ (returned (ok g), m')
          → ReadAcquired c m m'
      unfolding try_read is_poisoned Poison.borrow map_result Poison.get
      try_read-ReadAcquired g room e = elim live [
        | inl h ↦ elim (laws.try_read_shared th c m.inner room h) [
          | inl (_, raw, e', h') ↦ ground arith
          | inr busy ↦ absurd (ground arith)
        ]
        | inr (u, h) ↦ absurd (ground (arith, laws.try_read_exclusive th u m.inner h))
      ]

      pub try_read-ReadAcquired_poisoned :
          (p : PoisonError (RwLockReadGuard sys))
          → suc c < usize_mod
          → try_read sys th m ≡ (returned (err (poisoned p)), m')
          → ReadAcquired c m m'
      unfolding try_read is_poisoned Poison.borrow map_result Poison.get
      try_read-ReadAcquired_poisoned p room e = elim live [
        | inl h ↦ elim (laws.try_read_shared th c m.inner room h) [
          | inl (_, raw, e', h') ↦ ground arith
          | inr busy ↦ absurd (ground arith)
        ]
        | inr (u, h) ↦ absurd (ground (arith, laws.try_read_exclusive th u m.inner h))
      ]

      pub try_read_would_block :
          suc c < usize_mod → try_read sys th m ≡ (returned (err would_block), m') → m' ≡ m
      unfolding try_read is_poisoned Poison.borrow map_result Poison.get
      try_read_would_block room e = elim live [
        | inl h ↦ elim (laws.try_read_shared th c m.inner room h) [
          | inl (_, raw, e', h') ↦ absurd (ground arith)
          | inr busy ↦ ground arith
        ]
        | inr (u, h) ↦ ground (arith, laws.try_read_exclusive th u m.inner h)
      ]

    -- The access that keeps writers out.
    abbrev pub IsTaken : RwLock sys T → Type 0
    IsTaken m = (a : Access) × HasHolder a × InAccess m.inner a

    pub free_or_IsTaken :
        (c : ℕ) (m : RwLock sys T)
        → IsLive c m
        → ((c ≡ 0) × InAccess m.inner (shared 0)) ⊎ IsTaken m
    free_or_IsTaken zero m (inl h) = inl (refl, h)
    free_or_IsTaken (suc c) m (inl h) = inr (shared (suc c), some_readers c, h)
    free_or_IsTaken c m (inr (u, h)) = inr (exclusive u, one_writer u, h)

    module _ (th : Thread) (c : ℕ) (m m' : RwLock sys T) (live : IsLive c m) where
      pub write-WriteAcquired :
          (r : LockResult (RwLockWriteGuard sys))
          → write sys th m ≡ (returned r, m')
          → WriteAcquired th c m m' (inner_of r) × (is_err r ≡ is_poisoned sys m)
      unfolding write is_poisoned Poison.borrow map_result Poison.get
      write-WriteAcquired r e = elim (free_or_IsTaken c m live) [
        | inl (none_read, h) ↦ let (_, raw, e', h') = laws.write_free th m.inner h in ground arith
        | inr (a, held, h) ↦ absurd (ground (arith, laws.write_busy th a m.inner held h))
      ]

      pub try_write-WriteAcquired :
          (g : RwLockWriteGuard sys)
          → try_write sys th m ≡ (returned (ok g), m')
          → WriteAcquired th c m m' g
      unfolding try_write is_poisoned Poison.borrow map_result Poison.get
      try_write-WriteAcquired g e = elim (free_or_IsTaken c m live) [
        | inl (none_read, h) ↦
            let (_, raw, e', h') = laws.try_write_free th m.inner h in ground arith
        | inr (a, held, h) ↦ absurd (ground (arith, laws.try_write_busy th a m.inner held h))
      ]

      pub try_write-WriteAcquired_poisoned :
          (p : PoisonError (RwLockWriteGuard sys))
          → try_write sys th m ≡ (returned (err (poisoned p)), m')
          → WriteAcquired th c m m' p.guard
      unfolding try_write is_poisoned Poison.borrow map_result Poison.get
      try_write-WriteAcquired_poisoned p e = elim (free_or_IsTaken c m live) [
        | inl (none_read, h) ↦
            let (_, raw, e', h') = laws.try_write_free th m.inner h in ground arith
        | inr (a, held, h) ↦ absurd (ground (arith, laws.try_write_busy th a m.inner held h))
      ]

      pub try_write_would_block : try_write sys th m ≡ (returned (err would_block), m') → m' ≡ m
      unfolding try_write is_poisoned Poison.borrow map_result Poison.get
      try_write_would_block e = elim (free_or_IsTaken c m live) [
        | inl (none_read, h) ↦
            let (_, raw, e', h') = laws.try_write_free th m.inner h in absurd (ground arith)
        | inr (a, held, h) ↦ ground (arith, laws.try_write_busy th a m.inner held h)
      ]
