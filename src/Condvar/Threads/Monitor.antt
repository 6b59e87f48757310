-- ===== src/Condvar/Threads/Monitor.antt =====
-- A predicate on the value that every thread restores before it gives the mutex up
-- (src/condvar.rs).
use pinned_sync.Base.{ℕ, ◌≡◌, ◌≢◌, ◌⊎◌, inl, inr, none, arith, subst, sym}
use pinned_sync.Effect.{returned}
use pinned_sync.Std.{LockResult, Thread}
use pinned_sync.Sys.Interface.{SysMutex, Phase, SysMutexLaws}
use pinned_sync.Mutex
use pinned_sync.Mutex.{Mutex, MutexGuard}
use pinned_sync.Mutex.Threads as Calls
use pinned_sync.Mutex.Threads.{
  locked, try_locked, try_locked_poisoned, try_failed, wrote, dropped, actor,
}
use pinned_sync.Mutex.Calls.{try_lock_would_block}
use pinned_sync.Mutex.Invariant.{Inv-IsLive}
use pinned_sync.Condvar.Threads.{
  System, Step, acts, sleeps, wakes, notified_all, resumes, Reach, made, later, awake, woken,
}
use pinned_sync.Condvar.Threads.Invariant.{resumed, Reach-Inv}
use pinned_sync.Mutex.Values.{dropped_cell}
use pinned_sync.SysCommon.Poison

module _ {sys : SysMutex} {T : Type 0} (Good : T → Type 0) where
  -- What a step owes: a thread that drops its guard, or waits with it, leaves a good value.
  abbrev pub Restores : {s t : System sys T} → Step sys T s t → Type 0
  Restores {s} (acts (dropped _ _ _) _) = Good s.base.mutex.cell
  Restores {s} (sleeps _ _ _) = Good s.base.mutex.cell
  Restores (acts (locked _ _) _) = Unit
  Restores (acts (try_locked _ _) _) = Unit
  Restores (acts (try_locked_poisoned _ _) _) = Unit
  Restores (acts (try_failed _ _) _) = Unit
  Restores (acts (wrote _ _ _ _) _) = Unit
  Restores (wakes _ _) = Unit
  Restores notified_all = Unit
  Restores (resumes _ _ _ _) = Unit

  -- The first value is good, and every step restores.
  unfoldable pub AllRestore : {s : System sys T} → Reach sys T s → Type 0
  AllRestore (made value _ _) = Good value
  AllRestore (later r st) = AllRestore r × Restores st

made_cell :
    {sys : SysMutex} {T : Type 0} (value : T) (m : Mutex sys T)
    → Mutex.boxed sys value ≡ (returned tt, m)
    → m.cell ≡ value
unfolding Mutex.boxed
made_cell value m e = ground arith

module _ (sys : SysMutex) (InPhase : sys.Raw → Phase → Type 0)
    (laws : SysMutexLaws sys InPhase) where
  module _ {T : Type 0} (Good : T → Type 0) where
    -- The value is good, or some thread has a guard and is at work on it.
    abbrev IsKept : System sys T → Type 0
    IsKept s = Good s.base.mutex.cell ⊎ ((u : ℕ) × (s.base.guards u ≢ none))

    acts-IsKept :
        {s : System sys T} {t : Calls.System sys T} (r : Reach sys T s)
        (st : Calls.Step sys T s.base t) (e : s.waiting (actor sys T st).id ≡ awake)
        → Restores Good {s = s} {t = record s { base = t }} (acts st e)
        → IsKept s
        → IsKept (record s { base = t })
    acts-IsKept r (locked th e) w done kept = inr (th.id, ground arith)
    acts-IsKept r (try_locked th e) w done kept = inr (th.id, ground arith)
    acts-IsKept r (try_locked_poisoned th e) w done kept = inr (th.id, ground arith)
    acts-IsKept {s} r (try_failed th {m} e) w done kept =
        let live = Inv-IsLive sys InPhase laws (Reach-Inv sys InPhase laws r).sound in
        subst (λ k. Good k.cell ⊎ ((u : ℕ) × (s.base.guards u ≢ none)))
          (sym (try_lock_would_block sys InPhase laws th s.base.mutex m live e).0) kept
    acts-IsKept r (wrote th value h e) w done kept = inr (th.id, ground arith)
    acts-IsKept {s} r (dropped th {g} {m} h e) w done kept =
        inl (subst Good (sym (dropped_cell th g s.base.mutex m e)) done)

    Reach-IsKept : {s : System sys T} (r : Reach sys T s) → AllRestore Good r → IsKept s
    unfolding AllRestore
    Reach-IsKept (made value begun {m} e) good = inl (subst Good (sym (made_cell value m e)) good)
    Reach-IsKept (later r (acts st e)) (all, done) = acts-IsKept r st e done (Reach-IsKept r all)
    Reach-IsKept (later r (sleeps th e d)) (all, done) = inl done
    Reach-IsKept (later r (wakes i e)) (all, done) = Reach-IsKept r all
    Reach-IsKept (later r notified_all) (all, done) = Reach-IsKept r all
    Reach-IsKept (later r (resumes th w l e)) (all, done) = inr (th.id, ground arith)

    -- If the first value is good and each thread leaves a good value whenever it drops its guard or
    -- waits with it, then a wait that takes the mutex again finds a good value.
    pub resumed_wait_finds-Good :
        {s : System sys T} (reach : Reach sys T s)
        → AllRestore Good reach
        → (th : Thread) (note : Poison.Guard) (raw_guard : sys.RawGuard) (raw : sys.Raw)
          (r : LockResult (MutexGuard sys)) (m : Mutex sys T)
        → s.waiting th.id ≡ woken note
        → sys.lock th s.base.mutex.inner ≡ (returned raw_guard, raw)
        → Mutex.repoison sys
            (λ s. s)
            (record { guard = raw_guard; poison = note })
            (record s.base.mutex { inner = raw })
          ≡ (returned r, m)
        → Good m.cell
    resumed_wait_finds-Good reach all th note raw_guard raw r m w l e =
        let (idle, now_held, poison, cell, given, reported) =
          resumed sys InPhase laws th note raw_guard raw r m (Reach-Inv sys InPhase laws reach) l
            e in
        elim (Reach-IsKept reach all) [
          | inl good ↦ subst Good (sym cell) good
          | inr (u, busy) ↦ absurd (busy (idle.1 u))
        ]
