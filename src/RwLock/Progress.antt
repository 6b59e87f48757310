-- ===== src/RwLock/Progress.antt =====
-- Which calls return in the states that threads reach with one `RwLock` (src/rwlock.rs).
use pinned_sync.Base.{
  ℕ, suc, ◌<◌, ◌≡◌, ◌≢◌, ◌⊎◌, inl, inr, none, arith, subst, zero_or_suc, usize_mod,
}
use pinned_sync.Effect.{returned, blocked, panicked}
use pinned_sync.Std.{err, would_block, try_result, LockResult, TryLockResult, Thread}
use pinned_sync.SysCommon.Poison
use pinned_sync.SysCommon.Poison.{map_result}
use pinned_sync.Sys.Interface.{
  SysRwLock, Access, shared, exclusive, some_readers, one_writer, SysRwLockLaws,
}
use pinned_sync.RwLock.{RwLock, RwLockReadGuard, RwLockWriteGuard, read, try_read, write, try_write}
use pinned_sync.RwLock.Calls.{IsLive, free_or_IsTaken}
use pinned_sync.RwLock.Threads.{System, Reach}
use pinned_sync.RwLock.Invariant.{Inv, Inv-IsLive, Reach-Inv}

module _ (sys : SysRwLock) (InAccess : sys.Raw → Access → Type 0)
    (laws : SysRwLockLaws sys InAccess) where
  module _ {T : Type 0} {s : System sys T} (reach : Reach sys T s) where
    reached-Inv : Inv sys InAccess laws s
    reached-Inv = Reach-Inv sys InAccess laws reach

    reached-IsLive : IsLive sys InAccess laws s.reads s.lock
    reached-IsLive = Inv-IsLive sys InAccess laws reached-Inv

    -- In a reachable state with room for a reader more, either no thread has a write guard, and
    -- `read` returns, or panics because the platform has no room; or a thread has one, and `read`
    -- waits or panics. When it does not return it leaves the lock as it was.
    read_progress :
        (th : Thread)
        → suc s.reads < usize_mod
        → (((i : ℕ) → s.writers i ≡ none)
            × (((r : LockResult (RwLockReadGuard sys)) × (m : RwLock sys T) × (read sys th s.lock
                    ≡ (returned r, m)))
                ⊎ (read sys th s.lock ≡ (panicked, s.lock))))
          ⊎ (((u : ℕ) × (s.writers u ≢ none))
              × ((read sys th s.lock ≡ (blocked, s.lock))
                  ⊎ (read sys th s.lock ≡ (panicked, s.lock))))
    unfolding read
    read_progress th room = elim reached-Inv.owned [
      | inl free ↦ inl (
        free.1,
        elim (laws.read_shared th s.reads s.lock.inner room free.0) [
          | inl (g, raw, e, _) ↦ inl (
            map_result (Poison.borrow th s.lock.poison) (λ p. record { guard = g }),
            record s.lock { inner = raw },
            ground arith,
          )
          | inr full ↦ inr (ground arith)
        ],
      )
      | inr (u, x) ↦ inr ((u, x.2), ground (arith, laws.read_exclusive th u s.lock.inner x.0))
    ]

    -- In a reachable state `write` returns when there is no guard at all. When there is one it
    -- waits or panics, and leaves the lock as it was.
    pub write_progress :
        (th : Thread)
        → ((s.reads ≡ 0)
            × ((i : ℕ) → s.writers i ≡ none)
            × ((r : LockResult (RwLockWriteGuard sys)) × (m : RwLock sys T) × (write sys th s.lock
                  ≡ (returned r, m))))
          ⊎ (((0 < s.reads) ⊎ ((u : ℕ) × (s.writers u ≢ none)))
              × ((write sys th s.lock ≡ (blocked, s.lock))
                  ⊎ (write sys th s.lock ≡ (panicked, s.lock))))
    unfolding write
    write_progress th = elim reached-Inv.owned [
      | inl free ↦ elim (zero_or_suc s.reads) [
        | inl no_read ↦
            let (g, raw, e, _) =
              laws.write_free th s.lock.inner
                (subst (λ k. InAccess s.lock.inner (shared k)) no_read free.0) in
            inl (
              no_read,
              free.1,
              (
                map_result (Poison.borrow th s.lock.poison) (λ p. record { guard = g; poison = p }),
                record s.lock { inner = raw },
                ground arith,
              ),
            )
        | inr (c, some_read) ↦ inr (
          inl (omega arith),
          ground (
            arith,
            laws.write_busy th (shared (suc c)) s.lock.inner (some_readers c)
                (subst (λ k. InAccess s.lock.inner (shared k)) some_read free.0),
          ),
        )
      ]
      | inr (u, x) ↦ inr (
        inr (u, x.2),
        ground (arith, laws.write_busy th (exclusive u) s.lock.inner (one_writer u) x.0),
      )
    ]

    try_write_returns :
        (th : Thread)
        → (w : TryLockResult (RwLockWriteGuard sys)) × (m : RwLock sys T) × (try_write sys th s.lock
            ≡ (returned w, m))
    unfolding try_write
    try_write_returns th = elim (free_or_IsTaken sys InAccess laws s.reads s.lock reached-IsLive) [
      | inl (no_read, h) ↦
          let (g, raw, e, _) = laws.try_write_free th s.lock.inner h in
          (
            try_result (
                map_result (Poison.borrow th s.lock.poison)
                  (λ p. record { guard = g; poison = p })),
            record s.lock { inner = raw },
            ground arith,
          )
      | inr (a, held, h) ↦
          (err would_block, s.lock, ground (arith, laws.try_write_busy th a s.lock.inner held h))
    ]

    try_read_returns :
        (th : Thread)
        → suc s.reads < usize_mod
        → (r : TryLockResult (RwLockReadGuard sys)) × (m : RwLock sys T) × (try_read sys th s.lock
            ≡ (returned r, m))
    unfolding try_read
    try_read_returns th room = elim reached-IsLive [
      | inl h ↦ elim (laws.try_read_shared th s.reads s.lock.inner room h) [
        | inl (g, raw, e, _) ↦ (
          try_result (map_result (Poison.borrow th s.lock.poison) (λ p. record { guard = g })),
          record s.lock { inner = raw },
          ground arith,
        )
        | inr busy ↦ (err would_block, s.lock, ground arith)
      ]
      | inr (u, h) ↦
          (err would_block, s.lock, ground (arith, laws.try_read_exclusive th u s.lock.inner h))
    ]

    -- `try_write` and `try_read` return in every reachable state with room for a reader more: they
    -- neither wait nor panic.
    tries_return :
        (th : Thread)
        → suc s.reads < usize_mod
        → ((w : TryLockResult (RwLockWriteGuard sys)) × (m : RwLock sys T) × (try_write sys th
                s.lock
              ≡ (returned w, m)))
          × ((r : TryLockResult (RwLockReadGuard sys)) × (m : RwLock sys T) × (try_read sys th
                  s.lock
                ≡ (returned r, m)))
    unfolding try_write try_read
    tries_return th room = (try_write_returns th, try_read_returns th room)
