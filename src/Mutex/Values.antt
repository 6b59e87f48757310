-- ===== src/Mutex/Values.antt =====
-- The value in a `Mutex` against the writes that threads have made (src/mutex.rs).
use pinned_sync.Base.{◌≡◌, refl, ◌∙◌, ap, arith}
use pinned_sync.Effect.{returned}
use pinned_sync.Std.{inner_of, is_err, Thread}
use pinned_sync.SysCommon.Poison
use pinned_sync.SysCommon.Poison.History.{any_panics}
use pinned_sync.Sys.Interface.{SysMutex, Phase, SysMutexLaws}
use pinned_sync.Mutex.{
  Mutex, MutexGuard, boxed, is_poisoned, into_inner, get_mut, deref, deref_mut, drop_guard,
}
use pinned_sync.Mutex.Calls.{
  lock-Acquired, try_lock-Acquired, try_lock-Acquired_poisoned, try_lock_would_block,
}
use pinned_sync.Mutex.Threads.{
  System, locked, try_locked, try_locked_poisoned, try_failed, wrote, dropped, Reach, made, later,
}
use pinned_sync.Mutex.Invariant.{Inv-IsLive, Reach-Inv}

module _ {sys : SysMutex} {T : Type 0} where
  -- What was written last, by `boxed` at the latest.
  pub last_written : {s : System sys T} → Reach sys T s → T
  last_written (made value _ _) = value
  last_written (later r (wrote _ value _ _)) = value
  last_written (later r (locked _ _)) = last_written r
  last_written (later r (try_locked _ _)) = last_written r
  last_written (later r (try_locked_poisoned _ _)) = last_written r
  last_written (later r (try_failed _ _)) = last_written r
  last_written (later r (dropped _ _ _)) = last_written r

  made_cell : (value : T) (m : Mutex sys T) → boxed sys value ≡ (returned tt, m) → m.cell ≡ value
  unfolding boxed
  made_cell value m e = ground arith

  wrote_cell :
      (g : MutexGuard sys) (value : T) (m m' : Mutex sys T)
      → deref_mut sys g value m ≡ (returned tt, m')
      → m'.cell ≡ value
  unfolding deref_mut
  wrote_cell g value m m' e = ground arith

  pub dropped_cell :
      (th : Thread) (g : MutexGuard sys) (m m' : Mutex sys T)
      → drop_guard sys th g m ≡ (returned tt, m')
      → m'.cell ≡ m.cell
  unfolding drop_guard
  dropped_cell th g m m' e = ground arith

module _ (sys : SysMutex) (InPhase : sys.Raw → Phase → Type 0)
    (laws : SysMutexLaws sys InPhase) where
  module _ {T : Type 0} where
    cell-last_written : {s : System sys T} (r : Reach sys T s) → s.mutex.cell ≡ last_written r
    unfolding last_written
    cell-last_written (made value _ {m} e) = made_cell value m e
    cell-last_written (later {s} r (locked th {r = q} {m} e)) =
        (lock-Acquired sys InPhase laws th s.mutex m q
          (Inv-IsLive sys InPhase laws (Reach-Inv sys InPhase laws r)) e).0.same_cell
        ∙ cell-last_written r
    cell-last_written (later {s} r (try_locked th {g} {m} e)) =
        (try_lock-Acquired sys InPhase laws th s.mutex m g
          (Inv-IsLive sys InPhase laws (Reach-Inv sys InPhase laws r)) e).0.same_cell
        ∙ cell-last_written r
    cell-last_written (later {s} r (try_locked_poisoned th {e = p} {m} e)) =
        (try_lock-Acquired_poisoned sys InPhase laws th s.mutex m p
          (Inv-IsLive sys InPhase laws (Reach-Inv sys InPhase laws r)) e).0.same_cell
        ∙ cell-last_written r
    cell-last_written (later {s} r (try_failed th {m} e)) =
        ap (λ k. k.cell)
          (try_lock_would_block sys InPhase laws th s.mutex m
            (Inv-IsLive sys InPhase laws (Reach-Inv sys InPhase laws r)) e).0
        ∙ cell-last_written r
    cell-last_written (later {s} r (wrote th {g} {m} value h e)) = wrote_cell g value s.mutex m e
    cell-last_written (later {s} r (dropped th {g} {m} h e)) =
        dropped_cell th g s.mutex m e ∙ cell-last_written r

    -- What goes in comes out: in every reachable state `into_inner` and `get_mut` give the value
    -- that was written last, through a guard or by `boxed`, as an error exactly when a thread began
    -- to panic in a critical section, and a guard reads that value.
    pub into_inner-last_written :
        {s : System sys T} (r : Reach sys T s) (th : Thread) (g : MutexGuard sys)
        → (inner_of (into_inner sys th s.mutex) ≡ last_written r)
          × (is_err (into_inner sys th s.mutex) ≡ any_panics s.history)
          × (get_mut sys th s.mutex ≡ into_inner sys th s.mutex)
          × (deref sys g s.mutex ≡ last_written r)
    unfolding into_inner get_mut deref Poison.borrow Poison.map_result is_poisoned
    into_inner-last_written {s} r th g =
        let recorded = (Reach-Inv sys InPhase laws r).recorded in
        let same = cell-last_written r in (ground arith, ground arith, refl, same)
