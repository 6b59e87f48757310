-- ===== src/Condvar/Threads/Invariant.antt =====
-- The invariant of threads that lock one `Mutex` and wait with its guard (src/condvar.rs).
use pinned_sync.Base.{
  ℕ, ◌≡◌, ◌≢◌, inl, inr, Option, none, some, arith, ◌==◌, update, Bool-cases, subst, sym, ap, ◌∙◌,
}
use pinned_sync.Effect.{returned}
use pinned_sync.Std.{LockResult, inner_of, is_err, Thread}
use pinned_sync.SysCommon.Poison
use pinned_sync.Sys.Interface.{SysMutex, Phase, held, SysMutexLaws}
use pinned_sync.Mutex
use pinned_sync.Mutex.{Mutex, MutexGuard, is_poisoned}
use pinned_sync.Mutex.Threads as Calls
use pinned_sync.Mutex.Threads.{
  locked, try_locked, try_locked_poisoned, try_failed, wrote, dropped, actor,
}
use pinned_sync.Mutex.Invariant as Base
use pinned_sync.Mutex.Invariant.{holder, free-Idle, Inv-IsLive}
use pinned_sync.Condvar.Threads.{
  Waiter, awake, asleep, woken, System, suspend, resume, Step, acts, sleeps, wakes, notified_all,
  resumes, Reach, made, later,
}

-- A thread in `wait` has no guard, and its note tells whether it was panicking when it took the
-- lock.
abbrev pub IsNoted : {G : Type 0} → Option G → Thread → Waiter → Type 0
IsNoted g th awake = Unit
IsNoted g th (asleep note) = (g ≡ none) × (note.panicking ≡ th.panicking)
IsNoted g th (woken note) = (g ≡ none) × (note.panicking ≡ th.panicking)

module _ (sys : SysMutex) (InPhase : sys.Raw → Phase → Type 0)
    (laws : SysMutexLaws sys InPhase) where
  module _ {T : Type 0} where
    pub record Inv (s : System sys T) : Type 0 where
      pub sound : Base.Inv sys InPhase laws s.base
      pub suspended : (i : ℕ) → IsNoted (s.base.guards i) (s.base.begun i) (s.waiting i)

    -- A call of a method of the mutex concerns the thread that makes it alone.
    acts_elsewhere :
        {s t : Calls.System sys T} (st : Calls.Step sys T s t) (w : Waiter) (i : ℕ)
        → i ≢ (actor sys T st).id
        → IsNoted (s.guards i) (s.begun i) w
        → IsNoted (t.guards i) (t.begun i) w
    acts_elsewhere (locked th e) w i ne h = ground arith
    acts_elsewhere (try_locked th e) w i ne h = ground arith
    acts_elsewhere (try_locked_poisoned th e) w i ne h = ground arith
    acts_elsewhere (try_failed th e) w i ne h = h
    acts_elsewhere (wrote th value h e) w i ne q = q
    acts_elsewhere (dropped th h e) w i ne q = ground arith

    acts-Inv :
        {s : System sys T} {t : Calls.System sys T} (st : Calls.Step sys T s.base t)
        → s.waiting (actor sys T st).id ≡ awake
        → Inv s
        → Inv (record s { base = t })
    acts-Inv {s} {t} st e inv = record {
      sound = Base.Step-Inv sys InPhase laws st inv.sound;
      suspended = λ i. elim (Bool-cases (i == (actor sys T st).id)) [
        | inl same ↦
            subst (λ w. IsNoted (t.guards i) (t.begun i) w)
              (sym (ap s.waiting (ground (arith, same)) ∙ e)) tt
        | inr other ↦ acts_elsewhere st (s.waiting i) i (ground arith) (inv.suspended i)
      ];
    }

    sleeps-Inv :
        {s : System sys T} (th : Thread) {g : MutexGuard sys} (raw : sys.Raw)
        → Inv s
        → s.base.guards th.id ≡ some g
        → sys.drop_guard th g.guard s.base.mutex.inner ≡ (returned tt, raw)
        → Inv (record {
          base = suspend sys T s.base th raw;
          waiting = update s.waiting th.id (asleep g.poison);
        })
    unfolding is_poisoned
    sleeps-Inv {s} th {g} raw inv e d =
        let h = holder sys InPhase laws inv.sound th.id e in
        let (raw', d', f) = laws.drop_guard_held th g.guard s.base.mutex.inner h.0 in
        record {
          sound = record {
            owned = inl (ground arith, λ i. ground (arith, h.2 i));
            noted = λ i k q. ground (arith, inv.sound.noted i k);
            recorded = ground (arith, inv.sound.recorded);
          };
          suspended = λ i. ground (arith, inv.suspended i, inv.sound.noted th.id g);
        }

    -- What a wait that takes the mutex again gives back.
    pub resumed :
        {s : System sys T} (th : Thread) (note : Poison.Guard) (raw_guard : sys.RawGuard)
        (raw : sys.Raw) (r : LockResult (MutexGuard sys)) (m : Mutex sys T)
        → Inv s
        → sys.lock th s.base.mutex.inner ≡ (returned raw_guard, raw)
        → Mutex.repoison sys
            (λ s. s)
            (record { guard = raw_guard; poison = note })
            (record s.base.mutex { inner = raw })
          ≡ (returned r, m)
        → Base.Idle sys InPhase laws s.base.mutex s.base.guards
          × InPhase m.inner (held th.id)
          × (m.poison ≡ s.base.mutex.poison)
          × (m.cell ≡ s.base.mutex.cell)
          × (inner_of r ≡ record { guard = raw_guard; poison = note })
          × (is_err r ≡ is_poisoned sys s.base.mutex)
    unfolding Mutex.repoison is_poisoned
    resumed {s} th note raw_guard raw r m inv l e = elim inv.sound.owned [
      | inl idle ↦
          let (g', raw', l', h') = laws.lock_free th s.base.mutex.inner idle.0 in
          (idle, ground arith, ground arith, ground arith, ground arith, ground arith)
      | inr (u, h) ↦ absurd (ground (arith, laws.lock_held th u s.base.mutex.inner h.0))
    ]

    resumes-Inv :
        {s : System sys T} (th : Thread) (note : Poison.Guard) (raw_guard : sys.RawGuard)
        (raw : sys.Raw) (r : LockResult (MutexGuard sys)) (m : Mutex sys T)
        → Inv s
        → s.waiting th.id ≡ woken note
        → sys.lock th s.base.mutex.inner ≡ (returned raw_guard, raw)
        → Mutex.repoison sys
            (λ s. s)
            (record { guard = raw_guard; poison = note })
            (record s.base.mutex { inner = raw })
          ≡ (returned r, m)
        → Inv (record {
          base = resume sys T s.base th m (inner_of r);
          waiting = update s.waiting th.id awake;
        })
    unfolding is_poisoned
    resumes-Inv {s} th note raw_guard raw r m inv w l e =
        let (idle, now_held, poison, cell, given, reported) =
          resumed th note raw_guard raw r m inv l e in
        record {
          sound = record {
            owned = inr (th.id, (now_held, ground arith, λ i ne. ground (arith, idle.1 i)));
            noted =
                λ i k q. ground (arith, inv.sound.noted i k, inv.suspended th.id, inv.suspended i);
            recorded = ground (arith, inv.sound.recorded);
          };
          suspended = λ i. ground (arith, inv.suspended i);
        }

    pub Step-Inv : {s t : System sys T} → Step sys T s t → Inv s → Inv t
    Step-Inv (acts st e) inv = acts-Inv st e inv
    Step-Inv (sleeps th {raw} e d) inv = sleeps-Inv th raw inv e d
    Step-Inv (wakes j {note} e) inv = record {
      sound = inv.sound;
      suspended = λ i. ground (arith, inv.suspended i);
    }
    Step-Inv notified_all inv = record {
      sound = inv.sound;
      suspended = λ i. ground (arith, inv.suspended i);
    }
    Step-Inv (resumes th {note} {raw_guard} {raw} {r} {m} w l e) inv =
        resumes-Inv th note raw_guard raw r m inv w l e

    pub Reach-Inv : {s : System sys T} → Reach sys T s → Inv s
    Reach-Inv (made value begun e) = record {
      sound = Base.Reach-Inv sys InPhase laws (Calls.made value begun e);
      suspended = λ i. tt;
    }
    Reach-Inv (later r st) = Step-Inv st (Reach-Inv r)
