-- ===== src/Mutex/Invariant.antt =====
-- The invariant of threads that use one `Mutex` (src/mutex.rs), call by call.
use pinned_sync.Base.{
  ℕ, ◌≡◌, refl, ◌≢◌, ◌⊎◌, inl, inr, Option, none, some, arith, [], ◌==◌, Bool-cases, subst, sym,
}
use pinned_sync.Effect.{returned}
use pinned_sync.Std.{inner_of, Thread}
use pinned_sync.SysCommon.Poison
use pinned_sync.SysCommon.Poison.History.{any_panics}
use pinned_sync.Sys.Interface.{SysMutex, Phase, free, held, SysMutexLaws}
use pinned_sync.Mutex.{Mutex, MutexGuard, boxed, is_poisoned, deref_mut, drop_guard}
use pinned_sync.Mutex.Calls.{
  Acquired, IsLive, lock-Acquired, try_lock-Acquired, try_lock-Acquired_poisoned,
  try_lock_would_block, drop_guard_lem,
}
use pinned_sync.Mutex.Threads.{
  System, Step, locked, try_locked, try_locked_poisoned, try_failed, wrote, dropped, Reach, made,
  later, acquire, release,
}

module _ (sys : SysMutex) (InPhase : sys.Raw → Phase → Type 0)
    (laws : SysMutexLaws sys InPhase) where
  module _ {T : Type 0} where
    -- The platform's mutex is free and nobody has a guard, or one thread holds it with its guard.
    abbrev pub Held : Mutex sys T → (ℕ → Option (MutexGuard sys)) → ℕ → Type 0
    Held m guards u =
        InPhase m.inner (held u) × (guards u ≢ none) × ((i : ℕ) → i ≢ u → guards i ≡ none)

    abbrev pub Idle : Mutex sys T → (ℕ → Option (MutexGuard sys)) → Type 0
    Idle m guards = InPhase m.inner free × ((i : ℕ) → guards i ≡ none)

    pub record Inv (s : System sys T) : Type 0 where
      pub owned : Idle s.mutex s.guards ⊎ ((u : ℕ) × Held s.mutex s.guards u)
      pub noted :
          (i : ℕ) (g : MutexGuard sys)
          → s.guards i ≡ some g
          → g.poison.panicking ≡ (s.begun i).panicking
      pub recorded : is_poisoned sys s.mutex ≡ any_panics s.history

    pub free-Idle : {s : System sys T} → Inv s → InPhase s.mutex.inner free → Idle s.mutex s.guards
    free-Idle {s} inv f = elim inv.owned [
      | inl idle ↦ idle
      | inr (u, h) ↦ absurd (laws.free_not_held u s.mutex.inner f h.0)
    ]

    pub Inv-IsLive : {s : System sys T} → Inv s → IsLive sys InPhase laws s.mutex
    Inv-IsLive inv = elim inv.owned [ inl idle ↦ inl idle.0 | inr (u, h) ↦ inr (u, h.0) ]

    acquire-Inv :
        {s : System sys T} (th : Thread) (m : Mutex sys T) (g : MutexGuard sys)
        → Inv s
        → Acquired sys InPhase laws th s.mutex m g
        → Inv (acquire sys T s th m g)
    unfolding is_poisoned
    acquire-Inv {s} th m g inv a = record {
      owned = inr (th.id, (a.now_held, ground arith, λ i ne. ground (arith, idle.1 i)));
      noted = λ i h e. ground (arith, inv.noted i h);
      recorded = ground (arith, inv.recorded);
    }
      where
        idle : Idle s.mutex s.guards
        idle = free-Idle inv a.was_free

    -- A thread that has a guard is the one that holds the platform's mutex.
    pub holder :
        {s : System sys T} {g : MutexGuard sys}
        → Inv s
        → (i : ℕ) → s.guards i ≡ some g
        → Held s.mutex s.guards i
    holder {s} inv i e = elim inv.owned [
      | inl idle ↦ absurd (ground (arith, idle.1 i))
      | inr (u, h) ↦ elim (Bool-cases (i == u)) [
        | inl same ↦ subst (λ k. Held s.mutex s.guards k) (sym (ground arith)) h
        | inr other ↦ absurd (ground (arith, h.2 i))
      ]
    ]

    release-Inv :
        {s : System sys T} (th : Thread) {g : MutexGuard sys} (m : Mutex sys T)
        → Inv s
        → s.guards th.id ≡ some g
        → drop_guard sys th g s.mutex ≡ (returned tt, m)
        → Inv (release sys T s th m)
    unfolding is_poisoned Poison.done Poison.get
    release-Inv {s} th {g} m inv e d =
        let h = holder inv th.id e in
        let (raw, d', f) = drop_guard_lem sys InPhase laws th s.mutex g h.0 in
        record {
          owned = inl (ground arith, λ i. ground (arith, h.2 i));
          noted = λ i k q. ground (arith, inv.noted i k);
          recorded = ground (arith, inv.recorded, inv.noted th.id g e);
        }

    write-Inv :
        {s : System sys T} (g : MutexGuard sys) (value : T) (m : Mutex sys T)
        → Inv s
        → deref_mut sys g value s.mutex ≡ (returned tt, m)
        → Inv (record s { mutex = m })
    unfolding deref_mut is_poisoned
    write-Inv {s} g value m inv e = record {
      owned = elim inv.owned [
        | inl idle ↦ inl (ground arith, idle.1)
        | inr (u, h) ↦ inr (u, (ground arith, h.1, h.2))
      ];
      noted = inv.noted;
      recorded = ground (arith, inv.recorded);
    }

    pub Step-Inv : {s t : System sys T} → Step sys T s t → Inv s → Inv t
    Step-Inv {s} (locked th {r} {m} e) inv =
        acquire-Inv th m (inner_of r) inv
          (lock-Acquired sys InPhase laws th s.mutex m r (Inv-IsLive inv) e).0
    Step-Inv {s} (try_locked th {g} {m} e) inv =
        acquire-Inv th m g inv
          (try_lock-Acquired sys InPhase laws th s.mutex m g (Inv-IsLive inv) e).0
    Step-Inv {s} (try_locked_poisoned th {e = p} {m} e) inv =
        acquire-Inv th m p.guard inv
          (try_lock-Acquired_poisoned sys InPhase laws th s.mutex m p (Inv-IsLive inv) e).0
    Step-Inv {s} (try_failed th {m} e) inv =
        subst (λ k. Inv (record s { mutex = k }))
          (sym (try_lock_would_block sys InPhase laws th s.mutex m (Inv-IsLive inv) e).0) inv
    Step-Inv (wrote th {g} {m} value h e) inv = write-Inv g value m inv e
    Step-Inv (dropped th {g} {m} h e) inv = release-Inv th m inv h e

    made-Inv :
        (value : T) (begun : ℕ → Thread) (m : Mutex sys T)
        → boxed sys value ≡ (returned tt, m)
        → Inv (record { mutex = m; guards = λ _. none; begun = begun; history = [] })
    unfolding boxed is_poisoned Poison.get
    made-Inv value begun m e =
        let (raw, e', f) = laws.init_unready sys.uninit laws.uninit_unready in
        record {
          owned = inl (ground arith, λ i. refl);
          noted = λ i g q. cc;
          recorded = ground arith;
        }

    pub Reach-Inv : {s : System sys T} → Reach sys T s → Inv s
    Reach-Inv (made value begun {m} e) = made-Inv value begun m e
    Reach-Inv (later r st) = Step-Inv st (Reach-Inv r)
