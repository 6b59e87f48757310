-- ===== src/RwLock/Safety.antt =====
-- What holds in every state that threads reach with one `RwLock` (src/rwlock.rs).
use pinned_sync.Base.{
  ℕ, suc, ◌<◌, ◌≡◌, refl, inl, inr, some, arith, ◌==◌, Bool-cases, ◌∙◌, usize_mod,
}
use pinned_sync.Effect.{returned}
use pinned_sync.Std.{LockResult, inner_of, is_err, Thread}
use pinned_sync.SysCommon.Poison.History.{any_panics}
use pinned_sync.Sys.Interface.{SysRwLock, Access, SysRwLockLaws}
use pinned_sync.RwLock.{RwLock, RwLockReadGuard, RwLockWriteGuard, read, write}
use pinned_sync.RwLock.Calls.{IsLive, read-ReadAcquired, write-WriteAcquired}
use pinned_sync.RwLock.Threads.{System, Step, assigned, Reach}
use pinned_sync.RwLock.Values.{written, step_cell}
use pinned_sync.RwLock.Invariant.{Inv, Inv-IsLive, holder, Reach-Inv}

module _ (sys : SysRwLock) (InAccess : sys.Raw → Access → Type 0)
    (laws : SysRwLockLaws sys InAccess) where
  module _ {T : Type 0} {s : System sys T} (reach : Reach sys T s) where
    inv : Inv sys InAccess laws s
    inv = Reach-Inv sys InAccess laws reach

    live : IsLive sys InAccess laws s.reads s.lock
    live = Inv-IsLive sys InAccess laws inv

    -- In a reachable state in which a thread has a write guard there is no read guard, and no other
    -- thread has a write guard.
    pub writer_excludes :
        {g h : RwLockWriteGuard sys}
        → (i j : ℕ) → s.writers i ≡ some g
        → s.writers j ≡ some h
        → (s.reads ≡ 0) × (i ≡ j)
    writer_excludes i j e f =
        let x = holder sys InAccess laws inv i e in
        elim (Bool-cases (i == j)) [
          | inl same ↦ (x.1, ground arith)
          | inr other ↦ absurd (ground (arith, x.3 j))
        ]

    not_assigned :
        {t : System sys T} (st : Step sys T s t)
        → 0 < s.reads
        → written st s.lock.cell ≡ s.lock.cell
    not_assigned (assigned th value h e) some_read =
        absurd (omega (arith, (holder sys InAccess laws inv th.id h).1))
    not_assigned _ some_read = refl

    -- In a reachable state with a read guard, no call of any thread changes the value.
    pub readers_see_one_value :
        {t : System sys T} → Step sys T s t → 0 < s.reads → t.lock.cell ≡ s.lock.cell
    readers_see_one_value st some_read =
        step_cell sys InAccess laws live st ∙ not_assigned st some_read

    -- When `read` returns in a reachable state with room for a reader more, it reports an error
    -- exactly when a thread began to panic while it had a write guard; sections of readers do not
    -- count.
    read_reports_writer_panics :
        (th : Thread) (r : LockResult (RwLockReadGuard sys)) (m : RwLock sys T)
        → suc s.reads < usize_mod
        → read sys th s.lock ≡ (returned r, m)
        → is_err r ≡ any_panics s.history
    read_reports_writer_panics th r m room e =
        (read-ReadAcquired sys InAccess laws th s.reads s.lock m live r room e).1 ∙ inv.recorded

    -- When `write` returns in a reachable state, it reports an error exactly when a thread began to
    -- panic while it had a write guard; the new guard remembers whether the caller was panicking,
    -- and the value is untouched.
    pub write_reports_writer_panics :
        (th : Thread) (r : LockResult (RwLockWriteGuard sys)) (m : RwLock sys T)
        → write sys th s.lock ≡ (returned r, m)
        → (is_err r ≡ any_panics s.history)
          × ((inner_of r).poison.panicking ≡ th.panicking)
          × (m.cell ≡ s.lock.cell)
    write_reports_writer_panics th r m e =
        let (a, p) = write-WriteAcquired sys InAccess laws th s.reads s.lock m live r e in
        (p ∙ inv.recorded, a.noted, a.same_cell)
