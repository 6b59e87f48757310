-- ===== src/RwLock/Values.antt =====
-- The value in a `RwLock` against the writes that threads have made (src/rwlock.rs).
use pinned_sync.Base.{◌≡◌, refl, ◌∙◌, ap, arith}
use pinned_sync.Effect.{returned}
use pinned_sync.Std.{inner_of, is_err, Thread}
use pinned_sync.SysCommon.Poison
use pinned_sync.SysCommon.Poison.History.{any_panics}
use pinned_sync.Sys.Interface.{SysRwLock, Access, SysRwLockLaws}
use pinned_sync.RwLock.{
  RwLock, RwLockReadGuard, RwLockWriteGuard, boxed, is_poisoned, into_inner, get_mut, deref,
  deref_write, deref_mut, drop_read, drop_write,
}
use pinned_sync.RwLock.Calls.{
  IsLive, read-ReadAcquired, try_read-ReadAcquired, try_read-ReadAcquired_poisoned,
  try_read_would_block, write-WriteAcquired, try_write-WriteAcquired,
  try_write-WriteAcquired_poisoned, try_write_would_block,
}
use pinned_sync.RwLock.Threads.{
  System, Step, was_read, try_was_read, try_was_read_poisoned, try_read_failed, was_written,
  try_was_written, try_was_written_poisoned, try_write_failed, assigned, read_dropped,
  write_dropped, Reach, made, later,
}
use pinned_sync.RwLock.Invariant.{Inv-IsLive, Reach-Inv}

module _ {sys : SysRwLock} {T : Type 0} where
  abbrev pub written : {s t : System sys T} → Step sys T s t → T → T
  written (assigned _ value _ _) old = value
  written (was_read _ _ _) old = old
  written (try_was_read _ _ _) old = old
  written (try_was_read_poisoned _ _ _) old = old
  written (try_read_failed _ _ _) old = old
  written (was_written _ _) old = old
  written (try_was_written _ _) old = old
  written (try_was_written_poisoned _ _) old = old
  written (try_write_failed _ _) old = old
  written (read_dropped _ _ _ _) old = old
  written (write_dropped _ _ _) old = old

  -- What was written last, by `boxed` at the latest.
  pub last_written : {s : System sys T} → Reach sys T s → T
  last_written (made value _ _) = value
  last_written (later r st) = written st (last_written r)

  made_cell : (value : T) (m : RwLock sys T) → boxed sys value ≡ (returned tt, m) → m.cell ≡ value
  unfolding boxed
  made_cell value m e = ground arith

  assigned_cell :
      (g : RwLockWriteGuard sys) (value : T) (m m' : RwLock sys T)
      → deref_mut sys g value m ≡ (returned tt, m')
      → m'.cell ≡ value
  unfolding deref_mut
  assigned_cell g value m m' e = ground arith

  read_dropped_cell :
      (th : Thread) (g : RwLockReadGuard sys) (m m' : RwLock sys T)
      → drop_read sys th g m ≡ (returned tt, m')
      → m'.cell ≡ m.cell
  unfolding drop_read
  read_dropped_cell th g m m' e = ground arith

  write_dropped_cell :
      (th : Thread) (g : RwLockWriteGuard sys) (m m' : RwLock sys T)
      → drop_write sys th g m ≡ (returned tt, m')
      → m'.cell ≡ m.cell
  unfolding drop_write
  write_dropped_cell th g m m' e = ground arith

module _ (sys : SysRwLock) (InAccess : sys.Raw → Access → Type 0)
    (laws : SysRwLockLaws sys InAccess) where
  module _ {T : Type 0} where
    -- What a call makes of the value.
    pub step_cell :
        {s t : System sys T}
        → IsLive sys InAccess laws s.reads s.lock
        → (st : Step sys T s t) → t.lock.cell ≡ written st s.lock.cell
    step_cell {s} live (was_read th {r} {m} room e) =
        (read-ReadAcquired sys InAccess laws th s.reads s.lock m live r room e).0.same_cell
    step_cell {s} live (try_was_read th {g} {m} room e) =
        (try_read-ReadAcquired sys InAccess laws th s.reads s.lock m live g room e).same_cell
    step_cell {s} live (try_was_read_poisoned th {e = p} {m} room e) =
        (try_read-ReadAcquired_poisoned sys InAccess laws th s.reads s.lock m live p room
          e).same_cell
    step_cell {s} live (try_read_failed th {m} room e) =
        ap (λ k. k.cell) (try_read_would_block sys InAccess laws th s.reads s.lock m live room e)
    step_cell {s} live (was_written th {r} {m} e) =
        (write-WriteAcquired sys InAccess laws th s.reads s.lock m live r e).0.same_cell
    step_cell {s} live (try_was_written th {g} {m} e) =
        (try_write-WriteAcquired sys InAccess laws th s.reads s.lock m live g e).same_cell
    step_cell {s} live (try_was_written_poisoned th {e = p} {m} e) =
        (try_write-WriteAcquired_poisoned sys InAccess laws th s.reads s.lock m live p e).same_cell
    step_cell {s} live (try_write_failed th {m} e) =
        ap (λ k. k.cell) (try_write_would_block sys InAccess laws th s.reads s.lock m live e)
    step_cell {s} live (assigned th {g} {m} value h e) = assigned_cell g value s.lock m e
    step_cell {s} live (read_dropped th g {m} h e) = read_dropped_cell th g s.lock m e
    step_cell {s} live (write_dropped th {g} {m} h e) = write_dropped_cell th g s.lock m e

    cell-last_written : {s : System sys T} (r : Reach sys T s) → s.lock.cell ≡ last_written r
    unfolding last_written
    cell-last_written (made value _ {m} e) = made_cell value m e
    cell-last_written (later r st) =
        step_cell (Inv-IsLive sys InAccess laws (Reach-Inv sys InAccess laws r)) st
        ∙ ap (λ v. written st v) (cell-last_written r)

    -- What goes in comes out: in every reachable state `into_inner` and `get_mut` give the value
    -- that was written last, through a write guard or by `boxed`, as an error exactly when a thread
    -- began to panic while it had a write guard, and guards of both kinds read that value.
    pub rw_into_inner-last_written :
        {s : System sys T} (r : Reach sys T s) (th : Thread) (g : RwLockReadGuard sys)
        (h : RwLockWriteGuard sys)
        → (inner_of (into_inner sys th s.lock) ≡ last_written r)
          × (is_err (into_inner sys th s.lock) ≡ any_panics s.history)
          × (get_mut sys th s.lock ≡ into_inner sys th s.lock)
          × (deref sys g s.lock ≡ last_written r)
          × (deref_write sys h s.lock ≡ last_written r)
    unfolding into_inner get_mut deref deref_write Poison.borrow Poison.map_result is_poisoned
    rw_into_inner-last_written {s} r th g h =
        let recorded = (Reach-Inv sys InAccess laws r).recorded in
        let same = cell-last_written r in (ground arith, ground arith, refl, same, same)
